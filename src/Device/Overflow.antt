-- ===== src/Device/Overflow.antt =====
-- The keys whose int arithmetic overflows.
use lightning_cast_endpoint.Base.{
  ℕ, ap, ℕ_discrete, ◌<◌, ◌≡◌, ◌≢◌, ◌⊎◌, ◌↔◌, inl, inr, refl, sym, ◌∙◌, arith, pos_part, neg_part,
  ℤ, IsInt, pos, ◌+ℤ◌, ◌-ℤ◌, add_int, sub_int, undefined,
}
use lightning_cast_endpoint.Json.{JsonCpp}
use lightning_cast_endpoint.Client.State.{Client, World}
use lightning_cast_endpoint.Client.Send.{process_send, send_remote_command}
use lightning_cast_endpoint.Device.Keys.{
  Action, overflows, quit, nothing, send, with_result, action, press, turn, key,
}

-- What is within five of the upper and of the lower limit of int.
abbrev pub IsHigh : ℤ → Type 0
IsHigh v = 2_147_483_642 < pos_part v

abbrev pub IsLow : ℤ → Type 0
IsLow v = 2_147_483_643 < neg_part v

-- A key that adds to, or takes from, a value that is too near to a limit.
abbrev pub Overflows : ℕ → Client → Type 0
Overflows ch c =
    ((ch ≡ b'r') × IsHigh c.current_volume)
    ⊎ ((ch ≡ b'e') × IsLow c.current_volume)
    ⊎ ((ch ≡ b'u') × IsHigh c.position)
    ⊎ ((ch ≡ b'y') × IsLow c.position)

add_overflows :
    (act : ℤ → Action) (v : ℤ)
    → ((w : ℤ) → act w ≢ overflows)
    → IsInt v
    → (with_result act (add_int v (pos 5)) ≡ overflows) ↔ IsHigh v
unfolding add_int ◌+ℤ◌
add_overflows act v fine range = (λ e. ground (arith, fine (v +ℤ pos 5)), λ h. ground arith)

sub_overflows :
    (act : ℤ → Action) (v : ℤ)
    → ((w : ℤ) → act w ≢ overflows)
    → IsInt v
    → (with_result act (sub_int v (pos 5)) ≡ overflows) ↔ IsLow v
unfolding sub_int ◌-ℤ◌
sub_overflows act v fine range = (λ e. ground (arith, fine (v -ℤ pos 5)), λ h. ground arith)

module _ (c : Client) (volume : IsInt c.current_volume) (position : IsInt c.position) where
  r_overflows : (action b'r' c ≡ overflows) ↔ IsHigh c.current_volume
  unfolding action
  r_overflows = add_overflows _ c.current_volume (λ w e. cc) volume

  e_overflows : (action b'e' c ≡ overflows) ↔ IsLow c.current_volume
  unfolding action
  e_overflows = sub_overflows _ c.current_volume (λ w e. cc) volume

  u_overflows : (action b'u' c ≡ overflows) ↔ IsHigh c.position
  unfolding action
  u_overflows = add_overflows _ c.position (λ w e. cc) position

  y_overflows : (action b'y' c ≡ overflows) ↔ IsLow c.position
  unfolding action
  y_overflows = sub_overflows _ c.position (λ w e. cc) position

-- No other key does arithmetic.
other_keys :
    (ch : ℕ) (c : Client) → ch ≢ b'r' → ch ≢ b'e' → ch ≢ b'u' → ch ≢ b'y' → action ch c ≢ overflows
unfolding action
other_keys ch c r e u y h = ground arith

module _ (ch : ℕ) (c : Client) (volume : IsInt c.current_volume) (position : IsInt c.position) where
  overflows-Overflows : action ch c ≡ overflows → Overflows ch c
  overflows-Overflows h =
      let at : (k : ℕ) → ch ≡ k → action k c ≡ overflows =
        λ k e. ap (λ i. action i c) (sym e) ∙ h in
      elim (ℕ_discrete ch b'r') [
        | yes e ↦ inl (e, (r_overflows c volume position).0 (at b'r' e))
        | no r ↦ elim (ℕ_discrete ch b'e') [
          | yes e ↦ inr (inl (e, (e_overflows c volume position).0 (at b'e' e)))
          | no l ↦ elim (ℕ_discrete ch b'u') [
            | yes e ↦ inr (inr (inl (e, (u_overflows c volume position).0 (at b'u' e))))
            | no u ↦ elim (ℕ_discrete ch b'y') [
              | yes e ↦ inr (inr (inr (e, (y_overflows c volume position).0 (at b'y' e))))
              | no y ↦ absurd (other_keys ch c r l u y h)
            ]
          ]
        ]
      ]

  Overflows-overflows : Overflows ch c → action ch c ≡ overflows
  Overflows-overflows (inl (e, h)) = ap (λ i. action i c) e ∙ (r_overflows c volume position).1 h
  Overflows-overflows (inr (inl (e, h))) =
      ap (λ i. action i c) e ∙ (e_overflows c volume position).1 h
  Overflows-overflows (inr (inr (inl (e, h)))) =
      ap (λ i. action i c) e ∙ (u_overflows c volume position).1 h
  Overflows-overflows (inr (inr (inr (e, h)))) =
      ap (λ i. action i c) e ∙ (y_overflows c volume position).1 h

module _ (json : JsonCpp) {S : Type 0} where
  press_undefined : (a : Action) (w : World S) → press json a w ≡ undefined → a ≡ overflows
  unfolding send_remote_command process_send
  press_undefined quit w h = cc
  press_undefined nothing w h = cc
  press_undefined overflows w h = refl
  press_undefined (send cmd value) w h = ground arith

  -- The behaviour of a key is undefined exactly if its arithmetic leaves the range of int: "r" and "u" where the volume
  -- or the position is within five of the upper limit, "e" and "y" within five of the lower one; sending is always
  -- defined.
  pub turn_undefined :
      (ch : ℕ) (w : World S)
      → IsInt w.current_volume
      → IsInt w.position
      → (turn json (key ch) w ≡ undefined) ↔ Overflows ch w.client
  turn_undefined ch w volume position = (
    λ h. overflows-Overflows ch w.client volume position (press_undefined (action ch w.client) w h),
    λ o. ap (λ a. press json a w) (Overflows-overflows ch w.client volume position o),
  )

-- ===== src/Publisher/Published.antt =====
-- Which addresses are published.
use mathlib.Core.List.{map}
use lightning_cast_endpoint.Base.{
  ℕ, zero, suc, ◌⊎◌, ◌+◌, ◌-◌, same_text_iff, ◌≤◌, ◌≡◌, ◌≢◌, refl, sym, ap, ◌∙◌, true, false, List,
  [], ◌∷◌, ◌++◌, none, some, arith, pos, negsuc, done, undefined, codes, length, take, drop,
  length-append, take-append-drop, inl, inr, Option-cases, Bool-cases,
}
use lightning_cast_endpoint.Publisher.Register.{
  Interface, set_hostname, add_rr, register_svc, local_hostname, main_ip, lacks_local, with_local,
  find_main, add_others, service_type, txt_records, mdns_register,
}

-- The IPv4 addresses of the interfaces that are no loopback, in order.
abbrev pub publishable : List Interface → List ℕ
publishable [] = []
publishable (i ∷ interfaces) = elim (main_ip i) [
  | some ip ↦ ip ∷ publishable interfaces
  | none ↦ publishable interfaces
]

abbrev pub AllAddressed : List Interface → Type 0
AllAddressed [] = Unit {0}
AllAddressed (i ∷ interfaces) = (i.address ≢ none) × AllAddressed interfaces

find_main-publishable :
    (interfaces : List Interface)
    → AllAddressed interfaces
    → ((publishable interfaces ≡ []) × (find_main interfaces ≡ none))
      ⊎ ((ip : ℕ) × (rest : List Interface) × (publishable interfaces ≡ ip ∷ publishable rest)
          × (find_main interfaces ≡ some (ip, rest))
          × AllAddressed rest)
unfolding find_main
find_main-publishable [] h = inl (refl, refl)
find_main-publishable (i ∷ interfaces) (h, hs) = elim (Option-cases (main_ip i)) [
  | inr (ip, e) ↦ inr (ip, interfaces, ground arith, ground arith, hs)
  | inl e ↦ elim (find_main-publishable interfaces hs) [
    | inl (p, f) ↦ inl (ground arith, ground arith)
    | inr (ip, rest, p, f, a) ↦ inr (ip, rest, ground arith, ground arith, a)
  ]
]

add_others-publishable :
    (hostname : List ℕ) (interfaces : List Interface)
    → AllAddressed interfaces
    → add_others hostname interfaces ≡ done (map (add_rr hostname) (publishable interfaces))
unfolding add_others
add_others-publishable hostname [] h = refl
add_others-publishable hostname (i ∷ interfaces) (h, hs) =
    ground (arith, add_others-publishable hostname interfaces hs)

abbrev pub our_hostname : List ℕ
our_hostname = local_hostname (codes "LightningCastDeviceSample")

-- On a host whose interfaces all have an address, none of them IPv4 outside the loopback, -1 is returned and
-- nothing is published.
pub mdns_register_none :
    (ap1name : List ℕ) (port : ℕ) (interfaces : List Interface)
    → AllAddressed interfaces
    → publishable interfaces ≡ []
    → mdns_register ap1name port true (some interfaces) ≡ done (negsuc 0, [])
unfolding mdns_register
mdns_register_none ap1name port interfaces h e = elim (find_main-publishable interfaces h) [
  | inl (p, f) ↦ ground arith
  | inr (ip, rest, p, f, a) ↦ cc
]

-- On a host whose interfaces all have an address, the first IPv4 address outside the loopback gets the host
-- name, the others follow in order, each once, no other address is published, and then the service is
-- registered, with the text ver=1.0 in its TXT record.
pub mdns_register_published :
    (ap1name : List ℕ) (port : ℕ) (interfaces : List Interface) (ip : ℕ) (others : List ℕ)
    → AllAddressed interfaces
    → publishable interfaces ≡ ip ∷ others
    → mdns_register ap1name port true (some interfaces)
      ≡ done (
        pos 0,
        set_hostname our_hostname ip
            ∷ (map (add_rr our_hostname) others
                ++ register_svc ap1name service_type port txt_records ∷ []),
      )
unfolding mdns_register
mdns_register_published ap1name port interfaces ip others h e =
    elim (find_main-publishable interfaces h) [
      | inl (p, f) ↦ cc
      | inr (ip', rest, p, f, a) ↦ ground (arith, add_others-publishable our_hostname rest a)
    ]

-- An interface without an address, which is no loopback, right behind the main one is read through
-- a null pointer.
pub mdns_register_null :
    (ap1name : List ℕ) (port ip : ℕ) (main other : Interface) (rest : List Interface)
    → main_ip main ≡ some ip
    → other.loopback ≡ false
    → other.address ≡ none
    → mdns_register ap1name port true (some (main ∷ other ∷ rest)) ≡ undefined
unfolding mdns_register find_main add_others
mdns_register_null ap1name port ip main other rest m l a = ground arith

length-take_le : (n : ℕ) (xs : List ℕ) → length (take n xs) ≤ n
length-take_le zero xs = omega arith
length-take_le (suc n) [] = omega arith
length-take_le (suc n) (x ∷ xs) = omega (arith, length-take_le n xs)

length-with_local :
    (hostname : List ℕ) → length hostname ≤ 99 → length (with_local hostname) + 1 ≤ 106
length-with_local hostname h = elim (Bool-cases (lacks_local hostname)) [
  | inl lacks ↦ rw lacks (omega (arith, length-append hostname (codes ".local")))
  | inr has ↦ rw has (omega arith)
]

with_local_ends :
    (hostname : List ℕ) → (front : List ℕ) × (with_local hostname ≡ front ++ codes ".local")
with_local_ends hostname = elim (Bool-cases (lacks_local hostname)) [
  | inl lacks ↦ (hostname, rw lacks)
  | inr has ↦ (
    take (length hostname - 6) hostname,
    rw has (
        sym (take-append-drop (length hostname - 6) hostname)
        ∙ ap (◌++◌ (take (length hostname - 6) hostname)) (tail_is has)),
  )
]
  where
    tail_is : lacks_local hostname ≡ false → drop (length hostname - 6) hostname ≡ codes ".local"
    tail_is has =
        (same_text_iff (drop (length hostname - 6) hostname) (codes ".local")).0 (ground arith)

-- Whatever the name, the host name with its final zero fits into the buffer of 106 bytes and ends
-- in ".local".
pub local_hostname_fits :
    (name : List ℕ)
    → (length (local_hostname name) + 1 ≤ 106)
      × ((front : List ℕ) × (local_hostname name ≡ front ++ codes ".local"))
unfolding local_hostname
local_hostname_fits name =
    let (front, e) = with_local_ends (take 99 name) in
    (length-with_local (take 99 name) (length-take_le 99 name), (front, e))

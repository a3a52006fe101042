-- ===== src/Program/Standing.antt =====
-- How far each thread is with the calls of SnapcastComm that it has to make.
use lightning_cast_endpoint.Base.{◌⊎◌, inl, inr, ◌≡◌, refl, Bool, true, false, List, [], ◌∷◌, arith}
use lightning_cast_endpoint.Client.Channel
use lightning_cast_endpoint.Client.Channel.{Worker, testing, stopping, was_open}
use lightning_cast_endpoint.Client.Requests.{
  Request, waits_in, Follows, Unsent, Brings, halts_at, halts_in,
}
use lightning_cast_endpoint.Snapcast.Interleaving.{Caller, free}

-- A thread in a call is in the first that it has to make.
abbrev pub Standing : Caller → List Request → Type 0
Standing c todo =
    (c ≡ free) ⊎ ((r : Request) × (more : List Request) × (todo ≡ r ∷ more) × (c ≡ waits_in r))

pub Follows-Standing :
    {c d : Caller} {todo rest : List Request} → Follows c todo d rest → Standing d rest
Follows-Standing (Follows.asks r more f e w same) = inr (r, more, same, w)
Follows-Standing (Follows.returns r more w e f same) = inl f
Follows-Standing (Follows.start_refused w e f same) = inl f

-- The client's thread is behind the message that it handles, or behind its loop.
abbrev pub handles : Worker → Bool
handles testing = true
handles stopping = true
handles other = false

pub halts_at-handles : (w : Worker) → (halts_at w ≡ []) ⊎ (handles w ≡ true)
halts_at-handles w = ground arith

pub halts_in-was_open : (c : Channel.Caller) → (halts_in c ≡ []) ⊎ (c ≡ was_open)
halts_in-was_open c = ground arith

pub phone-handles :
    {s t : Channel.Threads} {todo : List Request}
    → Brings s t todo
    → (todo ≡ []) ⊎ (handles t.worker ≡ true)
phone-handles (Brings.nothing e) = inl e
phone-handles (Brings.play_message w v e) = inr (rw v refl)
phone-handles (Brings.stop_message w v e) = inr (rw v refl)

-- A list of calls that is not at its end stays with a thread that does not move on.
pub Follows-same :
    {A : Type 0} {c d : Caller} {todo rest : List Request}
    → Follows c todo d rest
    → (todo ≡ []) ⊎ A
    → A
Follows-same (Follows.asks r more f e w same) (inl none_left) = cc
Follows-same (Follows.returns r more w e f same) (inl none_left) = cc
Follows-same (Follows.start_refused w e f same) (inl none_left) = cc
Follows-same k (inr a) = a

pub Unsent-same : {A : Type 0} {todo rest : List Request} → Unsent todo rest → (todo ≡ []) ⊎ A → A
Unsent-same (Unsent.stop_unsent more e same) (inl none_left) = cc
Unsent-same (Unsent.start_unsent e same) (inl none_left) = cc
Unsent-same k (inr a) = a

-- ===== src/Util/FdSet.antt =====
-- fd_set: a descriptor set, and the range in which FD_SET is defined.
use lightning_cast_endpoint.Base.{
  ℕ, ◌≡◌, Bool, false, ◌||◌, List, [], ◌∷◌, arith, ltb, ◌==◌, if◌then◌else◌,
}

-- FD_SETSIZE
abbrev pub fd_setsize : ℕ
fd_setsize = 1024

-- FD_SET of a larger descriptor writes behind the set: its behaviour is undefined.
abbrev pub fits_set : ℕ → Bool
fits_set i = ltb i fd_setsize

-- FD_ISSET, FD_SET and FD_CLR.
unfoldable pub is_set : ℕ → List ℕ → Bool
is_set i [] = false
is_set i (j ∷ set) = i == j || is_set i set

abbrev pub fd_set : ℕ → List ℕ → List ℕ
fd_set i set = i ∷ set

unfoldable pub fd_clear : ℕ → List ℕ → List ℕ
fd_clear i [] = []
fd_clear i (j ∷ set) = if i == j then fd_clear i set else j ∷ fd_clear i set

pub is_set-fd_clear :
    (i j : ℕ) (set : List ℕ) → is_set j (fd_clear i set) ≡ (if i == j then false else is_set j set)
unfolding is_set fd_clear
is_set-fd_clear i j [] = ground arith
is_set-fd_clear i j (k ∷ set) = ground (arith, is_set-fd_clear i j set)

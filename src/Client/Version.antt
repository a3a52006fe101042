-- ===== src/Client/Version.antt =====
-- LightningcastVersion::operator<.
use lightning_cast_endpoint.Base.{◌≡◌, ◌∙◌, Bool, true, false, arith, ltb_ℤ, ◌==ℤ◌, ℤ, ◌||◌, ◌&&◌}
use lightning_cast_endpoint.Client.State.{Version, version_less}

-- One level of the lexicographic order: this number first, then what the later ones say.
abbrev level : ℤ → ℤ → Bool → Bool
level a b later = ltb_ℤ a b || (a ==ℤ b && later)

level_irrefl : (a : ℤ) (l : Bool) → level a a l ≡ l
level_irrefl a l = ground arith

level_trans :
    (a b c : ℤ) (l m n : Bool)
    → (l ≡ true → m ≡ true → n ≡ true)
    → level a b l ≡ true
    → level b c m ≡ true
    → level a c n ≡ true
level_trans a b c l m n h p q = ground arith

level_total :
    (a b : ℤ) (l m : Bool)
    → level a b l ≡ false
    → level b a m ≡ false
    → (a ≡ b) × (l ≡ false) × (m ≡ false)
level_total a b l m p q = ground arith

less_trans : (a b c : ℤ) → ltb_ℤ a b ≡ true → ltb_ℤ b c ≡ true → ltb_ℤ a c ≡ true
less_trans a b c p q = ground arith

less_total : (a b : ℤ) → ltb_ℤ a b ≡ false → ltb_ℤ b a ≡ false → a ≡ b
less_total a b p q = ground arith

less_irrefl : (a : ℤ) → ltb_ℤ a a ≡ false
less_irrefl a = ground arith

pub version_less_irrefl : (a : Version) → version_less a a ≡ false
unfolding version_less
version_less_irrefl a =
    level_irrefl a.major _ ∙ level_irrefl a.minor (ltb_ℤ a.patch a.patch) ∙ less_irrefl a.patch

-- `<` on versions is transitive.
pub version_less_trans :
    (a b c : Version) → version_less a b ≡ true → version_less b c ≡ true → version_less a c ≡ true
unfolding version_less
version_less_trans a b c =
    level_trans a.major b.major c.major _ _ _
      (level_trans a.minor b.minor c.minor _ _ _ (less_trans a.patch b.patch c.patch))

-- Two versions of which neither is before the other have the same three numbers.
pub version_less_total :
    (a b : Version) → version_less a b ≡ false → version_less b a ≡ false → a ≡ b
unfolding version_less
version_less_total a b p q =
    let (e, p', q') = level_total a.major b.major _ _ p q in
    let (f, p'', q'') = level_total a.minor b.minor _ _ p' q' in
    let g : a.patch ≡ b.patch = less_total a.patch b.patch p'' q'' in
    λ i. record { major = e i; minor = f i; patch = g i }

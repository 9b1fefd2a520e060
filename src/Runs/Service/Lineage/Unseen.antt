-- ===== src/Runs/Service/Lineage/Unseen.antt =====
-- How many identifiers of a list are not seen yet: what the two loops of `lineage` count down.
use buffdata.Prelude.{
  [], true, false, suc, ℕ, String, List, ◌∷◌, contains, ◌≤◌, arith, ◌≡◌, length, if◌then◌else◌, ◌<◌,
  string_eq, eq_iff,
}

abbrev pub unseen : List String → List String → ℕ
unseen [] seen = 0
unseen (x ∷ xs) seen = if contains x seen then unseen xs seen else suc (unseen xs seen)

unseen_more : (xs seen : List String) (p : String) → unseen xs (p ∷ seen) ≤ unseen xs seen
unseen_more [] seen p = ground arith
unseen_more (x ∷ xs) seen p = ground (arith, unseen_more xs seen p)

pub unseen_fewer :
    (xs seen : List String) (p : String)
    → contains p seen ≡ false
    → contains p xs ≡ true
    → unseen xs (p ∷ seen) < unseen xs seen
unseen_fewer [] seen p fresh here = ground (arith, here)
unseen_fewer (x ∷ xs) seen p fresh here =
    ground (arith, here, fresh, unseen_more xs seen p, unseen_fewer xs seen p, eq_iff x p)

pub unseen_all : (xs seen : List String) → unseen xs seen ≤ length xs
unseen_all [] seen = ground arith
unseen_all (x ∷ xs) seen = ground (arith, unseen_all xs seen)

-- ===== src/Edge/Registry/Sessions.antt =====
-- internal/edge/registry.go, the map `all`: an association list from sessions to what is tracked.
use coen.Base.{
  ℕ, suc, ◌+◌, ◌≡◌, refl, Bool, true, false, not, ◌&&◌, Option, none, some, List, [], ◌∷◌, arith,
  if◌then◌else◌, ◌==◌, Bytes, bytes_eq,
}

pub record Tracked : Type 0 where
  pub fp : Bytes
  pub joined : Bool

unfoldable pub find : ℕ → List (ℕ × Tracked) → Option Tracked
find s [] = none
find s ((j, t) ∷ m) = if j == s then some t else find s m

-- `all[s] = t`
unfoldable pub put : ℕ → Tracked → List (ℕ × Tracked) → List (ℕ × Tracked)
put s t [] = (s, t) ∷ []
put s t ((j, u) ∷ m) = if j == s then (s, t) ∷ m else (j, u) ∷ put s t m

-- delete(all, s)
pub erase : ℕ → List (ℕ × Tracked) → List (ℕ × Tracked)
erase s [] = []
erase s ((j, u) ∷ m) = let rest = erase s m in if j == s then rest else (j, u) ∷ rest

-- `t.joined = true` through the pointer that `all[s]` is.
unfoldable pub mark_joined : ℕ → List (ℕ × Tracked) → List (ℕ × Tracked)
mark_joined s [] = []
mark_joined s ((j, u) ∷ m) =
    if j == s then (j, record u { joined = true }) ∷ m else (j, u) ∷ mark_joined s m

pub find-put :
    (s i : ℕ) (t : Tracked) (m : List (ℕ × Tracked))
    → find i (put s t m) ≡ (if s == i then some t else find i m)
unfolding find put
find-put s i t [] = refl
find-put s i t ((j, u) ∷ m) = ground (arith, find-put s i t m)

pub find-erase :
    (s i : ℕ) (m : List (ℕ × Tracked)) → find i (erase s m) ≡ (if s == i then none else find i m)
unfolding find erase
find-erase s i [] = ground arith
find-erase s i ((j, u) ∷ m) = ground (arith, find-erase s i m)

abbrev pub set_joined : Option Tracked → Option Tracked
set_joined none = none
set_joined (some t) = some (record t { joined = true })

pub find-mark_joined :
    (s i : ℕ) (m : List (ℕ × Tracked))
    → find i (mark_joined s m) ≡ (if s == i then set_joined (find i m) else find i m)
unfolding find mark_joined
find-mark_joined s i [] = ground arith
find-mark_joined s i ((j, u) ∷ m) = ground (arith, find-mark_joined s i m)

-- The keys of a Go map are distinct.
abbrev pub IsMap : List (ℕ × Tracked) → Type 0
IsMap [] = Unit
IsMap ((j, t) ∷ m) = (find j m ≡ none) × IsMap m

pub put-IsMap : (s : ℕ) (t : Tracked) (m : List (ℕ × Tracked)) → IsMap m → IsMap (put s t m)
unfolding find put
put-IsMap s t [] h = (refl, tt)
put-IsMap s t ((j, u) ∷ m) h = ground (arith, find-put s j t m, put-IsMap s t m h.1)

pub erase-IsMap : (s : ℕ) (m : List (ℕ × Tracked)) → IsMap m → IsMap (erase s m)
unfolding find erase
erase-IsMap s [] h = tt
erase-IsMap s ((j, u) ∷ m) h = ground (arith, find-erase s j m, erase-IsMap s m h.1)

pub mark_joined-IsMap : (s : ℕ) (m : List (ℕ × Tracked)) → IsMap m → IsMap (mark_joined s m)
unfolding find mark_joined
mark_joined-IsMap s [] h = tt
mark_joined-IsMap s ((j, u) ∷ m) h =
    ground (arith, find-mark_joined s j m, mark_joined-IsMap s m h.1)

-- The number of tracked sessions of a fingerprint that have, or have not, joined the pool.
abbrev pub counts : Bytes → Bool → Tracked → Bool
counts fp true t = bytes_eq t.fp fp && t.joined
counts fp false t = bytes_eq t.fp fp && not t.joined

unfoldable pub tally : Bytes → Bool → List (ℕ × Tracked) → ℕ
tally fp b [] = 0
tally fp b ((j, t) ∷ m) = let rest = tally fp b m in if counts fp b t then suc rest else rest

abbrev pub one_if : Bool → ℕ
one_if true = 1
one_if false = 0

abbrev pub counted : Bytes → Bool → Option Tracked → ℕ
counted fp b none = 0
counted fp b (some t) = one_if (counts fp b t)

pub tally-put :
    (fp : Bytes) (b : Bool) (s : ℕ) (t : Tracked) (m : List (ℕ × Tracked))
    → find s m ≡ none
    → tally fp b (put s t m) ≡ tally fp b m + one_if (counts fp b t)
unfolding tally find put
tally-put fp b s t [] h = ground arith
tally-put fp b s t ((j, u) ∷ m) h = ground (arith, tally-put fp b s t m)

erase_of_missing : (s : ℕ) (m : List (ℕ × Tracked)) → find s m ≡ none → erase s m ≡ m
unfolding find erase
erase_of_missing s [] h = refl
erase_of_missing s ((j, u) ∷ m) h = ground (arith, erase_of_missing s m)

pub tally-erase :
    (fp : Bytes) (b : Bool) (s : ℕ) (m : List (ℕ × Tracked))
    → IsMap m
    → tally fp b m ≡ tally fp b (erase s m) + counted fp b (find s m)
unfolding tally find erase
tally-erase fp b s [] h = refl
tally-erase fp b s ((j, u) ∷ m) h = ground (arith, tally-erase fp b s m h.1, erase_of_missing s m)

pub tally-mark_joined :
    (fp : Bytes) (b : Bool) (s : ℕ) (m : List (ℕ × Tracked))
    → IsMap m
    → tally fp b (mark_joined s m) + counted fp b (find s m)
      ≡ tally fp b m + counted fp b (set_joined (find s m))
unfolding tally find mark_joined
tally-mark_joined fp b s [] h = refl
tally-mark_joined fp b s ((j, u) ∷ m) h = ground (arith, tally-mark_joined fp b s m h.1)

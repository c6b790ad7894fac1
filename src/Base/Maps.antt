-- ===== src/Base/Maps.antt =====
-- Go maps as total functions with the zero value where a key is missing, and the map update.
use mathlib.Core.Path.{◌≡◌, subst}
use mathlib.Core.Logic.{◌≢◌, inl, inr}
use coen.Base.Tests.{if◌then◌else◌, Bool-cases}
use coen.Base.Text.{Bytes, bytes_eq, bytes_eq_refl, bytes_eq→eq}
use mathlib.Core.Bool.{false}

abbrev pub update {ℓ} : {V : Type ℓ} → (Bytes → V) → Bytes → V → Bytes → V
update m k v j = if bytes_eq k j then v else m j

bytes_eq-ne : (k j : Bytes) → bytes_eq k j ≡ false → k ≢ j
bytes_eq-ne k j h e = cc (h, bytes_eq_refl k, e)

module _ {ℓ} {V : Type ℓ} where
  pub update_self : (m : Bytes → V) (k : Bytes) (v : V) → update m k v k ≡ v
  update_self m k v = rw (bytes_eq_refl k)

  -- To prove something of every value of an updated map.
  pub update_all {κ} :
      (P : Bytes → V → Type κ) (m : Bytes → V) (k : Bytes) (v : V)
      → P k v
      → ((j : Bytes) → k ≢ j → P j (m j))
      → (j : Bytes) → P j (update m k v j)
  update_all P m k v new old j = elim (Bool-cases (bytes_eq k j)) [
    | inl e ↦ rw e (subst (λ i. P i v) (bytes_eq→eq k j e) new)
    | inr e ↦ rw e (old j (bytes_eq-ne k j e))
  ]

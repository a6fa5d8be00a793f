-- ===== src/Prelude/StringMap.antt =====
-- A JavaScript `Map` with string keys: an association list in insertion order. `set` on a key that
-- is there keeps its place, and a new key goes to the end. A `Set` of strings is a list.
use Prim.Native.Nat.{suc}
use Prim.Native.String.{String}
use mathlib.Core.Path.{◌≡◌, refl}
use mathlib.Core.Logic.{ite}
use mathlib.Core.Bool.{Bool, true, false}
use mathlib.Core.Option.{Option, none, some}
use mathlib.Core.List.{List, [], ◌∷◌, ◌++◌, map}
use native.Mathlib.Omega.{arith}
use package.ais_tracking_system.Prelude.Lists.{length}
use package.ais_tracking_system.Prelude.Tests.{is_some}
use package.ais_tracking_system.Prelude.Text.{str_discrete}

abbrev pub StringMap {ℓ} : Type ℓ → Type ℓ
StringMap V = List (String × V)

module _ {ℓ} {V : Type ℓ} where
  unfoldable pub get : String → StringMap V → Option V
  get k [] = none
  get k ((j, v) ∷ m) = ite (str_discrete j k) (some v) (get k m)

  unfoldable pub has : String → StringMap V → Bool
  has k [] = false
  has k ((j, v) ∷ m) = ite (str_discrete j k) true (has k m)

  unfoldable pub put : String → V → StringMap V → StringMap V
  put k v [] = (k, v) ∷ []
  put k v ((j, w) ∷ m) = ite (str_discrete j k) ((j, v) ∷ m) ((j, w) ∷ put k v m)

  unfoldable pub delete : String → StringMap V → StringMap V
  delete k [] = []
  delete k ((j, w) ∷ m) = ite (str_discrete j k) (delete k m) ((j, w) ∷ delete k m)

  abbrev pub keys : StringMap V → List String
  keys m = map (λ e. e.0) m

  abbrev pub values : StringMap V → List V
  values m = map (λ e. e.1) m

  -- No key occurs twice, as in every `Map`.
  abbrev pub IsDistinct : StringMap V → Type 0
  IsDistinct [] = Unit {0}
  IsDistinct ((k, v) ∷ m) = (has k m ≡ false) × IsDistinct m

  pub get-put :
      (k j : String) (v : V) (m : StringMap V)
      → get j (put k v m) ≡ ite (str_discrete k j) (some v) (get j m)
  unfolding get put
  get-put k j v [] = refl
  get-put k j v ((i, w) ∷ m) = ground (arith, get-put k j v m)

  pub get-delete :
      (k j : String) (m : StringMap V) → get j (delete k m) ≡ ite (str_discrete k j) none (get j m)
  unfolding get delete
  get-delete k j [] = ground arith
  get-delete k j ((i, w) ∷ m) = ground (arith, get-delete k j m)

  pub has-put :
      (k j : String) (v : V) (m : StringMap V)
      → has j (put k v m) ≡ ite (str_discrete k j) true (has j m)
  unfolding has put
  has-put k j v [] = refl
  has-put k j v ((i, w) ∷ m) = ground (arith, has-put k j v m)

  pub has-delete :
      (k j : String) (m : StringMap V) → has j (delete k m) ≡ ite (str_discrete k j) false (has j m)
  unfolding has delete
  has-delete k j [] = ground arith
  has-delete k j ((i, w) ∷ m) = ground (arith, has-delete k j m)

  pub length-put :
      (k : String) (v : V) (m : StringMap V)
      → length (put k v m) ≡ (elim (has k m) [ true ↦ length m | false ↦ suc (length m) ])
  unfolding has put
  length-put k v [] = refl
  length-put k v ((i, w) ∷ m) = ground (arith, length-put k v m)

  pub delete_absent : (k : String) (m : StringMap V) → has k m ≡ false → delete k m ≡ m
  unfolding has delete
  delete_absent k [] h = refl
  delete_absent k ((i, w) ∷ m) h = ground (arith, delete_absent k m)

  pub length-delete :
      (k : String) (m : StringMap V)
      → IsDistinct m
      → has k m ≡ true
      → suc (length (delete k m)) ≡ length m
  unfolding has delete
  length-delete k [] d h = ground arith
  length-delete k ((i, w) ∷ m) d h = ground (arith, length-delete k m, delete_absent k m)

  pub put-IsDistinct :
      (k : String) (v : V) (m : StringMap V) → IsDistinct m → IsDistinct (put k v m)
  unfolding has put
  put-IsDistinct k v [] d = (refl, tt)
  put-IsDistinct k v ((i, w) ∷ m) d = ground (arith, put-IsDistinct k v m, has-put k i v m)

  pub delete-IsDistinct : (k : String) (m : StringMap V) → IsDistinct m → IsDistinct (delete k m)
  unfolding delete
  delete-IsDistinct k [] d = tt
  delete-IsDistinct k ((i, w) ∷ m) d = ground (arith, delete-IsDistinct k m, has-delete k i m)

  pub has-get : (k : String) (m : StringMap V) → get k m ≡ none → has k m ≡ false
  unfolding has get
  has-get k [] h = refl
  has-get k ((i, w) ∷ m) h = ground (arith, has-get k m)

  pub get-has : (k : String) (m : StringMap V) → has k m ≡ false → get k m ≡ none
  unfolding has get
  get-has k [] h = refl
  get-has k ((i, w) ∷ m) h = ground (arith, get-has k m)

  -- A new key goes to the end.
  pub put_absent :
      (k : String) (v : V) (m : StringMap V) → has k m ≡ false → put k v m ≡ m ++ (k, v) ∷ []
  unfolding has put
  put_absent k v [] h = refl
  put_absent k v ((i, w) ∷ m) h = ground (arith, put_absent k v m)

  pub length-put_absent :
      (k : String) (v : V) (m : StringMap V) → has k m ≡ false → length (put k v m) ≡ suc (length m)
  length-put_absent k v m h = ground (arith, length-put k v m)

  pub length-put_present :
      (k : String) (v : V) (m : StringMap V) → has k m ≡ true → length (put k v m) ≡ length m
  length-put_present k v m h = ground (arith, length-put k v m)

  -- Deleting the first key leaves the rest of the map.
  pub delete_first :
      (k : String) (w : V) (m : StringMap V) → IsDistinct ((k, w) ∷ m) → delete k ((k, w) ∷ m) ≡ m
  unfolding delete
  delete_first k w m d = ground (arith, delete_absent k m)

  pub has-tail :
      (k j : String) (w : V) (m : StringMap V) → has j ((k, w) ∷ m) ≡ false → has j m ≡ false
  unfolding has
  has-tail k j w m h = ground arith

  pub has_of_get : (k : String) (v : V) (m : StringMap V) → get k m ≡ some v → has k m ≡ true
  unfolding has get
  has_of_get k v [] e = cc
  has_of_get k v ((i, w) ∷ m) e = ground (arith, has_of_get k v m)

  pub has-is_some : (k : String) (m : StringMap V) → has k m ≡ is_some (get k m)
  unfolding has get
  has-is_some k [] = refl
  has-is_some k ((i, w) ∷ m) = ground (arith, has-is_some k m)

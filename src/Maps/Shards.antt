-- ===== src/Maps/Shards.antt =====
-- `dashmap::DashMap`, which the repository does not hold: one call is one atomic step, and a map is
-- known by what `get` and an iteration give.
use pylon.Prelude.{◌≡◌, refl, Option, none, some, List, [], Eq, ◌==◌, if◌then◌else◌}
use pylon.Maps.Assoc.{
  lookup, insert, remove, Unique, lookup-insert, lookup-remove, insert-Unique, remove-Unique,
}

pub record DashMap (K V : Type 0) ⦃e : Eq K⦄ : Type 1 where
  pub Map : Type 0
  pub empty : Map
  pub get : Map → K → Option V
  -- A write through an entry or a `get_mut` guard.
  pub put : Map → K → V → Map
  pub delete : Map → K → Map
  pub entries : Map → List (K × V)
  pub get-empty : (k : K) → get empty k ≡ none
  pub get-put :
      (m : Map) (k j : K) (v : V) → get (put m k v) j ≡ (if k == j then some v else get m j)
  pub get-delete : (m : Map) (k j : K) → get (delete m k) j ≡ (if k == j then none else get m j)
  pub lookup-entries : (m : Map) (k : K) → lookup k (entries m) ≡ get m k
  pub entries_unique : (m : Map) → Unique (entries m)

-- A map with these laws.
pub record Plain (K V : Type 0) ⦃e : Eq K⦄ : Type 0 where
  pub items : List (K × V)
  pub unique : Unique items

module _ {K V : Type 0} ⦃e : Eq K⦄ where
  abbrev pub plain : DashMap K V
  plain = record {
    Map = Plain K V;
    empty = record { items = []; unique = tt };
    get = λ m k. lookup k m.items;
    put =
        λ m k v. record { items = insert k v m.items; unique = insert-Unique k v m.items m.unique };
    delete = λ m k. record { items = remove k m.items; unique = remove-Unique k m.items m.unique };
    entries = λ m. m.items;
    get-empty = λ k. refl;
    get-put = λ m k j v. lookup-insert k j v m.items;
    get-delete = λ m k j. lookup-remove k j m.items;
    lookup-entries = λ m k. refl;
    entries_unique = λ m. m.unique;
  }

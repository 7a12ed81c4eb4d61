-- ===== src/Maps/BTree.antt =====
-- `BTreeMap`: `insert` keeps the entries in the order of their keys.
use pylon.Prelude.{
  ℕ, ◌≡◌, refl, Bool, true, false, ◌&&◌, ◌||◌, List, [], ◌∷◌, arith, Eq, ◌==◌, ltb, some,
  if◌then◌else◌, nat_eq, list_eq,
}
use pylon.Maps.Assoc.{lookup, remove, modify}

-- `Ord` of the keys.
pub record Ord {ℓ} (K : Type ℓ) ⦃e : Eq K⦄ : Type ℓ where
  pub lt : K → K → Bool
  pub lt_trans : (a b c : K) → lt a b ≡ true → lt b c ≡ true → lt a c ≡ true
  pub lt_total : (a b : K) → lt a b ≡ false → (a == b) ≡ false → lt b a ≡ true

pub ltb_trans : (a b c : ℕ) → ltb a b ≡ true → ltb b c ≡ true → ltb a c ≡ true
ltb_trans a b c h k = ground arith

pub ltb_total : (a b : ℕ) → ltb a b ≡ false → (a == b) ≡ false → ltb b a ≡ true
ltb_total a b h k = ground arith

instance abbrev pub nat_ord : Ord ℕ
nat_ord = record { lt = ltb; lt_trans = ltb_trans; lt_total = ltb_total }

-- The order of `String`: byte by byte.
abbrev pub bytes_lt : List ℕ → List ℕ → Bool
bytes_lt [] [] = false
bytes_lt [] (b ∷ bs) = true
bytes_lt (a ∷ as') [] = false
bytes_lt (a ∷ as') (b ∷ bs) = ltb a b || (a == b && bytes_lt as' bs)

pub bytes_lt_trans :
    (a b c : List ℕ) → bytes_lt a b ≡ true → bytes_lt b c ≡ true → bytes_lt a c ≡ true
bytes_lt_trans [] [] c h k = k
bytes_lt_trans [] (y ∷ b) [] h k = k
bytes_lt_trans [] (y ∷ b) (z ∷ c) h k = refl
bytes_lt_trans (x ∷ a) [] c h k = ground arith
bytes_lt_trans (x ∷ a) (y ∷ b) [] h k = ground arith
bytes_lt_trans (x ∷ a) (y ∷ b) (z ∷ c) h k = ground (arith, bytes_lt_trans a b c)

pub bytes_lt_total : (a b : List ℕ) → bytes_lt a b ≡ false → (a == b) ≡ false → bytes_lt b a ≡ true
bytes_lt_total [] [] h k = ground arith
bytes_lt_total [] (y ∷ b) h k = ground arith
bytes_lt_total (x ∷ a) [] h k = refl
bytes_lt_total (x ∷ a) (y ∷ b) h k = ground (arith, bytes_lt_total a b)

instance abbrev pub bytes_ord : Ord (List ℕ)
bytes_ord = record { lt = bytes_lt; lt_trans = bytes_lt_trans; lt_total = bytes_lt_total }

module _ {ℓ κ} {K : Type ℓ} {V : Type κ} ⦃e : Eq K⦄ ⦃o : Ord K⦄ where
  abbrev pub insert_sorted : K → V → List (K × V) → List (K × V)
  insert_sorted k v [] = (k, v) ∷ []
  insert_sorted k v ((j, w) ∷ m) =
      if j == k
      then (k, v) ∷ m
      else if o.lt k j
      then (k, v) ∷ (j, w) ∷ m
      else (j, w) ∷ insert_sorted k v m

  -- Every key is above `k`.
  abbrev pub Above : K → List (K × V) → Type 0
  Above k [] = Unit {0}
  Above k ((j, w) ∷ m) = (o.lt k j ≡ true) × Above k m

  abbrev pub Ascending : List (K × V) → Type 0
  Ascending [] = Unit {0}
  Ascending ((j, w) ∷ m) = Above j m × Ascending m

  pub lookup-insert_sorted :
      (k j : K) (v : V) (m : List (K × V))
      → lookup j (insert_sorted k v m) ≡ (if k == j then some v else lookup j m)
  lookup-insert_sorted k j v [] = refl
  lookup-insert_sorted k j v ((i, w) ∷ m) =
      ground (arith, e.same_iff k j, e.same_iff i k, e.same_iff i j, lookup-insert_sorted k j v m)

  transitive-Above : (k j : K) (m : List (K × V)) → o.lt k j ≡ true → Above j m → Above k m
  transitive-Above k j [] h a = tt
  transitive-Above k j ((i, w) ∷ m) h a = (o.lt_trans k j i h a.0, transitive-Above k j m h a.1)

  insert_sorted-Above :
      (l k : K) (v : V) (m : List (K × V))
      → o.lt l k ≡ true
      → Above l m
      → Above l (insert_sorted k v m)
  insert_sorted-Above l k v [] h a = (h, tt)
  insert_sorted-Above l k v ((i, w) ∷ m) h a = ground (arith, insert_sorted-Above l k v m h a.1)

  pub insert_sorted-Ascending :
      (k : K) (v : V) (m : List (K × V)) → Ascending m → Ascending (insert_sorted k v m)
  insert_sorted-Ascending k v [] a = (tt, tt)
  insert_sorted-Ascending k v ((i, w) ∷ m) a = ground (
    arith,
    insert_sorted-Ascending k v m a.1,
    insert_sorted-Above i k v m,
    transitive-Above k i m,
    o.lt_total k i,
    e.same_iff i k,
    e.same_iff k i,
  )

  remove-Above : (l k : K) (m : List (K × V)) → Above l m → Above l (remove k m)
  remove-Above l k [] a = tt
  remove-Above l k ((i, w) ∷ m) a = ground (arith, remove-Above l k m a.1)

  pub remove-Ascending : (k : K) (m : List (K × V)) → Ascending m → Ascending (remove k m)
  remove-Ascending k [] a = tt
  remove-Ascending k ((i, w) ∷ m) a =
      ground (arith, remove-Ascending k m a.1, remove-Above i k m a.0)

  modify-Above : (l k : K) (f : V → V) (m : List (K × V)) → Above l m → Above l (modify k f m)
  modify-Above l k f [] a = tt
  modify-Above l k f ((i, w) ∷ m) a = ground (arith, modify-Above l k f m a.1)

  pub modify-Ascending :
      (k : K) (f : V → V) (m : List (K × V)) → Ascending m → Ascending (modify k f m)
  modify-Ascending k f [] a = tt
  modify-Ascending k f ((i, w) ∷ m) a =
      ground (arith, modify-Ascending k f m a.1, modify-Above i k f m a.0)

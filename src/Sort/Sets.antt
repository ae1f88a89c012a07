-- ===== src/Sort/Sets.antt =====
-- `sorted({...})`: a set of identifiers as its strictly ascending list. Such a list depends on the
-- set only, whatever the order or the number of the insertions.
use mathlib.Core.Path.{subst}
use ctv_attribution_pipeline.Base.{
  ℕ, ◌<◌, ◌≡◌, refl, sym, ◌∙◌, false, ◌||◌, List, [], ◌∷◌, arith, All, mem, ltb, ◌==◌,
  if◌then◌else◌,
}

-- one `add`, in a set that is kept as its sorted list
unfoldable pub insert_new : ℕ → List ℕ → List ℕ
insert_new x [] = x ∷ []
insert_new x (y ∷ ys) =
    if ltb x y then x ∷ y ∷ ys else if x == y then y ∷ ys else y ∷ insert_new x ys

unfoldable pub sorted_set : List ℕ → List ℕ
unfolding insert_new
sorted_set [] = []
sorted_set (x ∷ xs) = insert_new x (sorted_set xs)

abbrev pub Ascending : List ℕ → Type 0
Ascending [] = Unit
Ascending (x ∷ xs) = All (λ y. x < y) xs × Ascending xs

mem-insert_new : (z x : ℕ) (ys : List ℕ) → mem z (insert_new x ys) ≡ (z == x || mem z ys)
unfolding insert_new
mem-insert_new z x [] = refl
mem-insert_new z x (y ∷ ys) = ground (arith, mem-insert_new z x ys)

pub mem-sorted_set : (z : ℕ) (xs : List ℕ) → mem z (sorted_set xs) ≡ mem z xs
unfolding sorted_set
mem-sorted_set z [] = refl
mem-sorted_set z (x ∷ xs) = ground (arith, mem-insert_new z x (sorted_set xs), mem-sorted_set z xs)

All-lt_trans : (x y : ℕ) (ys : List ℕ) → x < y → All (λ z. y < z) ys → All (λ z. x < z) ys
All-lt_trans x y [] h a = tt
All-lt_trans x y (z ∷ zs) h a = (omega arith, All-lt_trans x y zs h a.1)

All-insert_new :
    (w x : ℕ) (ys : List ℕ) → w < x → All (λ z. w < z) ys → All (λ z. w < z) (insert_new x ys)
unfolding insert_new
All-insert_new w x [] h a = (h, tt)
All-insert_new w x (y ∷ ys) h a = ground (arith, All-insert_new w x ys h a.1)

insert_new-Ascending : (x : ℕ) (ys : List ℕ) → Ascending ys → Ascending (insert_new x ys)
unfolding insert_new
insert_new-Ascending x [] h = (tt, tt)
insert_new-Ascending x (y ∷ ys) h =
    ground (arith, All-lt_trans x y ys, All-insert_new y x ys, insert_new-Ascending x ys h.1)

pub sorted_set-Ascending : (xs : List ℕ) → Ascending (sorted_set xs)
unfolding sorted_set
sorted_set-Ascending [] = tt
sorted_set-Ascending (x ∷ xs) = insert_new-Ascending x (sorted_set xs) (sorted_set-Ascending xs)

not-mem_of_All-lt : (x : ℕ) (ys : List ℕ) → All (λ z. x < z) ys → mem x ys ≡ false
not-mem_of_All-lt x [] a = refl
not-mem_of_All-lt x (y ∷ ys) a = ground (arith, not-mem_of_All-lt x ys a.1)

head_eq :
    (x y : ℕ) (xs ys : List ℕ)
    → Ascending (x ∷ xs)
    → Ascending (y ∷ ys)
    → ((z : ℕ) → mem z (x ∷ xs) ≡ mem z (y ∷ ys))
    → x ≡ y
head_eq x y xs ys hx hy e = ground (
  arith,
  e x,
  e y,
  not-mem_of_All-lt x ys,
  not-mem_of_All-lt y xs,
  All-lt_trans x y ys,
  All-lt_trans y x xs,
  hx,
  hy,
)

tail_mem :
    (x : ℕ) (xs ys : List ℕ)
    → Ascending (x ∷ xs)
    → Ascending (x ∷ ys)
    → ((z : ℕ) → mem z (x ∷ xs) ≡ mem z (x ∷ ys))
    → (z : ℕ) → mem z xs ≡ mem z ys
tail_mem x xs ys hx hy e z =
    ground (arith, e z, not-mem_of_All-lt x xs hx.0, not-mem_of_All-lt x ys hy.0)

-- Strictly ascending lists with the same members are equal.
pub Ascending-eq :
    (xs ys : List ℕ) → Ascending xs → Ascending ys → ((z : ℕ) → mem z xs ≡ mem z ys) → xs ≡ ys
Ascending-eq [] [] hx hy e = refl
Ascending-eq [] (y ∷ ys) hx hy e = ground (arith, e y)
Ascending-eq (x ∷ xs) [] hx hy e = ground (arith, e x)
Ascending-eq (x ∷ xs) (y ∷ ys) hx hy e =
    cons_eq x y xs ys hx hy e (head_eq x y xs ys hx hy e)
      (λ hy' e'. Ascending-eq xs ys hx.1 hy'.1 (tail_mem x xs ys hx hy' e'))
  where
    cons_eq :
        (x y : ℕ) (xs ys : List ℕ)
        → Ascending (x ∷ xs)
        → Ascending (y ∷ ys)
        → ((z : ℕ) → mem z (x ∷ xs) ≡ mem z (y ∷ ys))
        → x ≡ y
        → (Ascending (x ∷ ys) → ((z : ℕ) → mem z (x ∷ xs) ≡ mem z (x ∷ ys)) → xs ≡ ys)
        → x ∷ xs ≡ y ∷ ys
    cons_eq x y xs ys hx hy e p rest = cc (
      p,
      rest (subst (λ w. Ascending (w ∷ ys)) (sym p) hy)
          (subst (λ w. (z : ℕ) → mem z (x ∷ xs) ≡ mem z (w ∷ ys)) (sym p) e),
    )

pub sorted_set-eq :
    (xs ys : List ℕ) → ((z : ℕ) → mem z xs ≡ mem z ys) → sorted_set xs ≡ sorted_set ys
sorted_set-eq xs ys e =
    Ascending-eq (sorted_set xs) (sorted_set ys) (sorted_set-Ascending xs) (sorted_set-Ascending ys)
      (λ z. mem-sorted_set z xs ∙ e z ∙ sym (mem-sorted_set z ys))

-- sorting a set that is sorted changes nothing
pub sorted_set_of_Ascending : (xs : List ℕ) → Ascending xs → sorted_set xs ≡ xs
sorted_set_of_Ascending xs h =
    Ascending-eq (sorted_set xs) xs (sorted_set-Ascending xs) h (λ z. mem-sorted_set z xs)

-- ===== src/Utils/Pagination/Laws.antt =====
-- The pages of a statement are a partition of its rows.
use whatsapp_api.Base.{
  ℕ, zero, suc, ◌+◌, ◌-◌, ◌*◌, ◌≤◌, ◌<◌, ◌≡◌, refl, List, [], ◌∷◌, ◌++◌, take, drop, length, max,
  arith, length-take, sym,
}
use Prim.Native.Nat.add
use whatsapp_api.Base.Int.{ℤ, pos, negsuc, at_least_one}
use whatsapp_api.Utils.Pagination.{page_count, clamp_size, paginate}

-- Enough pages for all rows.
page_count-mul : (total size : ℕ) → 1 ≤ size → total ≤ page_count total size * size
unfolding page_count
page_count-mul total size h = grind arith

clamp_size_pos : (size : ℤ) → 1 ≤ clamp_size size
unfolding clamp_size
clamp_size_pos (pos n) = omega arith
clamp_size_pos (negsuc n) = omega arith

clamp_size_le : (size : ℤ) → clamp_size size ≤ 500
unfolding clamp_size
clamp_size_le (pos n) = omega arith
clamp_size_le (negsuc n) = omega arith

at_least_one_pos : (page : ℤ) → 1 ≤ at_least_one page
at_least_one_pos (pos n) = omega arith
at_least_one_pos (negsuc n) = omega arith

max_one_suc : (n : ℕ) → max 1 (suc n) ≡ suc n
max_one_suc n = omega arith

suc-sub-one : (n : ℕ) → suc n - 1 ≡ n
suc-sub-one n = omega arith

suc-mul : (size n : ℕ) → suc n * size ≡ n * size + size
suc-mul size n = grind arith

zero-mul : (size : ℕ) → zero * size ≡ 0
zero-mul size = grind arith

beyond-mul :
    (pages page size : ℕ) (total : ℕ)
    → total ≤ pages * size
    → pages < page
    → total ≤ (page - 1) * size
beyond-mul pages page size total h k = grind arith

module _ {ℓ} {A : Type ℓ} where
  -- The items of the pages 1, …, n, one after the other.
  pub first_pages : List A → ℤ → ℕ → List A
  first_pages rows size zero = []
  first_pages rows size (suc n) =
      first_pages rows size n ++ (paginate rows (pos (suc n)) size).items

  take_nil : (n : ℕ) → take {A = A} n [] ≡ []
  take_nil zero = refl
  take_nil (suc n) = refl

  take-add : (m n : ℕ) (xs : List A) → take (m + n) xs ≡ take m xs ++ take n (drop m xs)
  take-add zero n xs = rw (add.zero n)
  take-add (suc m) n [] = rw (add.suc m n, take_nil n)
  take-add (suc m) n (x ∷ xs) = rw (add.suc m n, take-add m n xs)

  take_all : (n : ℕ) (xs : List A) → length xs ≤ n → take n xs ≡ xs
  take_all zero [] h = refl
  take_all zero (x ∷ xs) h = absurd (omega arith)
  take_all (suc n) [] h = refl
  take_all (suc n) (x ∷ xs) h = rw (take_all n xs (omega arith))

  drop_all : (n : ℕ) (xs : List A) → length xs ≤ n → drop n xs ≡ []
  drop_all zero [] h = refl
  drop_all zero (x ∷ xs) h = absurd (omega arith)
  drop_all (suc n) [] h = refl
  drop_all (suc n) (x ∷ xs) h = drop_all n xs (omega arith)

  first_pages-eq-take :
      (rows : List A) (size : ℤ) (n : ℕ) → first_pages rows size n ≡ take (n * clamp_size size) rows
  unfolding first_pages paginate
  first_pages-eq-take rows size zero = rw (zero-mul (clamp_size size))
  first_pages-eq-take rows size (suc n) =
      rw
        (first_pages-eq-take rows size n, max_one_suc n, suc-sub-one n, suc-mul (clamp_size size) n)
        (sym (take-add (n * clamp_size size) (clamp_size size) rows))

  -- Asked for in turn, the pages 1, …, `pages` of one statement hold each row once, in order.
  pub pages_cover :
      (rows : List A) (page size : ℤ) → first_pages rows size (paginate rows page size).pages ≡ rows
  pages_cover rows page size = rw (first_pages-eq-take rows size (paginate rows page size).pages) (
      take_all _ rows
        (unfold paginate in page_count-mul (length rows) (clamp_size size) (clamp_size_pos size)))

  -- A page holds at most `page_size` rows, which is between 1 and 500; `page` is at least 1; and a
  -- page after the last one is empty.
  paginate_bounds :
      (rows : List A) (page size : ℤ)
      → let r = paginate rows page size in
        (length r.items ≤ r.page_size)
        × (1 ≤ r.page_size)
        × (r.page_size ≤ 500)
        × (1 ≤ r.page)
        × (r.pages < r.page → r.items ≡ [])
  unfolding paginate
  paginate_bounds rows page size = (
    rw (length-take (clamp_size size) _) (omega arith),
    clamp_size_pos size,
    clamp_size_le size,
    at_least_one_pos page,
    λ beyond.
        rw
          (drop_all _ rows (
            beyond-mul _ _ _ _
              (page_count-mul (length rows) (clamp_size size) (clamp_size_pos size)) beyond))
          (take_nil _),
  )

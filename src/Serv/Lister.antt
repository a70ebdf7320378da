-- ===== src/Serv/Lister.antt =====
-- serv/lister.go: one read of a directory listing.
use sshserv.Prelude.{
  ℕ, zero, suc, refl, ap, ◌∷◌, ◌⊎◌, inl, inr, ◌↔◌, Bool-cases, ◌+◌, ◌-◌, ◌≤◌, ◌<◌, ◌≡◌, Bool, true,
  false, List, [], ◌++◌, if◌then◌else◌, leb, ltb, length, take, drop, length-take, length-drop,
  leb→le, ltb→lt, sym, ◌∙◌, arith,
}

-- What one call leaves: the entries it copied and whether it reports `io.EOF`.
pub record Listed {ℓ} (A : Type ℓ) : Type ℓ where
  pub copied : List A
  pub at_end : Bool

-- `ListAt` with a buffer of `size` entries, at an offset that is not negative. A slice
-- `l[offset:maxlen]` has `maxlen - offset` entries.
unfoldable pub list_at {ℓ} : {A : Type ℓ} → List A → ℕ → ℕ → Listed A
list_at l size offset =
    if leb (length l) offset
    then record { copied = []; at_end = true }
    else let maxlen = if ltb (length l) (offset + size) then length l else offset + size in
      let n = take (maxlen - offset) (drop offset l) in
      record { copied = n; at_end = ltb (length n) size }

-- A reader that asks for page after page until it is told that it is at the end, or its fuel ends.
abbrev pub read_pages {ℓ} : {A : Type ℓ} → ℕ → List A → ℕ → ℕ → List A
read_pages zero l size offset = []
read_pages (suc fuel) l size offset =
    let page = list_at l size offset in
    let later = read_pages fuel l size (offset + length page.copied) in
    if page.at_end then page.copied else page.copied ++ later

add-zero_left : (n : ℕ) → 0 + n ≡ n
add-zero_left n = omega arith

add-suc_left : (m n : ℕ) → suc m + n ≡ suc (m + n)
add-suc_left m n = omega arith

module _ {ℓ} {A : Type ℓ} where
  take_all : (n : ℕ) (xs : List A) → length xs ≤ n → take n xs ≡ xs
  take_all zero [] h = refl
  take_all zero (x ∷ xs) h = absurd (omega (arith, h))
  take_all (suc n) [] h = refl
  take_all (suc n) (x ∷ xs) h = ap (λ r. x ∷ r) (take_all n xs (omega (arith, h)))

  drop_all : (n : ℕ) (xs : List A) → length xs ≤ n → drop n xs ≡ []
  drop_all zero [] h = refl
  drop_all zero (x ∷ xs) h = absurd (omega (arith, h))
  drop_all (suc n) [] h = refl
  drop_all (suc n) (x ∷ xs) h = drop_all n xs (omega (arith, h))

  take-nil : (n : ℕ) → take {A = A} n [] ≡ []
  take-nil zero = refl
  take-nil (suc n) = refl

  take-drop : (n : ℕ) (xs : List A) → take n xs ++ drop n xs ≡ xs
  take-drop zero xs = refl
  take-drop (suc n) [] = refl
  take-drop (suc n) (x ∷ xs) = ap (λ r. x ∷ r) (take-drop n xs)

  drop-drop : (m n : ℕ) (xs : List A) → drop n (drop m xs) ≡ drop (m + n) xs
  drop-drop zero n xs = rw (add-zero_left n) refl
  drop-drop (suc m) zero [] = rw (add-suc_left m 0) refl
  drop-drop (suc m) (suc n) [] = rw (add-suc_left m (suc n)) refl
  drop-drop (suc m) n (x ∷ xs) = rw (add-suc_left m n) (drop-drop m n xs)

  -- The slice that is cut at the listing's end holds what the one that is not cut does.
  slice_lem :
      (l : List A) (size offset : ℕ)
      → leb (length l) offset ≡ false
      → take
          ((if ltb (length l) (offset + size) then length l else offset + size) - offset)
          (drop offset l)
        ≡ take size (drop offset l)
  slice_lem l size offset h = elim (Bool-cases (ltb (length l) (offset + size))) [
    | inl e ↦ rw (e) (
        take_all (length l - offset) (drop offset l) (omega (arith, length-drop offset l))
        ∙ sym (
            take_all size (drop offset l)
              (omega (arith, length-drop offset l, ltb→lt (length l) (offset + size) e))))
    | inr e ↦ rw (e) (ap (λ k. take k (drop offset l)) (omega arith))
  ]

  -- One call copies the entries from the offset on, as many as the buffer holds, and it reports
  -- the end exactly when the buffer is not filled or the offset is past the last entry.
  pub list_at_lem :
      (l : List A) (size offset : ℕ)
      → ((list_at l size offset).copied ≡ take size (drop offset l))
        × (((list_at l size offset).at_end ≡ true)
            ↔ ((length l < offset + size) ⊎ (length l ≤ offset)))
  unfolding list_at
  list_at_lem l size offset = elim (Bool-cases (leb (length l) offset)) [
    | inl e ↦
        rw (e, drop_all offset l (leb→le (length l) offset e), take-nil size)
          (refl, ((λ _. inr (leb→le (length l) offset e)), (λ _. refl)))
    | inr e ↦ ground (
      arith,
      e,
      slice_lem l size offset e,
      length-take size (drop offset l),
      length-drop offset l,
    )
  ]

  at_end-length :
      (l : List A) (size offset : ℕ)
      → (list_at l size offset).at_end ≡ true
      → length l ≤ offset + size
  at_end-length l size offset e = let (c, end) = list_at_lem l size offset in ground (arith, end, e)

  read_pages-step :
      (fuel : ℕ) (l : List A) (size offset : ℕ)
      → 0 < size
      → length l < suc fuel + offset
      → ((o : ℕ) → length l < fuel + o → read_pages fuel l size o ≡ drop o l)
      → read_pages (suc fuel) l size offset ≡ drop offset l
  read_pages-step fuel l size offset h enough IH =
      let (c, end) = list_at_lem l size offset in
      elim (Bool-cases (list_at l size offset).at_end) [
        | inl e ↦ rw (e) (
            c
            ∙ take_all size (drop offset l)
                (omega (arith, at_end-length l size offset e, length-drop offset l)))
        | inr e ↦
            let room : offset + size ≤ length l = ground (arith, e, end) in
            let filled : length (take size (drop offset l)) ≡ size =
              omega (arith, room, length-take size (drop offset l), length-drop offset l) in
            rw
              (
                e,
                c,
                filled,
                IH (offset + size) (omega (arith, enough, h)),
                sym (drop-drop offset size l),
              )
              (take-drop size (drop offset l))
      ]

  read_pages_from :
      (fuel : ℕ) (l : List A) (size offset : ℕ)
      → 0 < size
      → length l < fuel + offset
      → read_pages fuel l size offset ≡ drop offset l
  read_pages_from zero l size offset h enough = sym (drop_all offset l (omega (arith, enough)))
  read_pages_from (suc fuel) l size offset h enough =
      read_pages-step fuel l size offset h enough (λ o e. read_pages_from fuel l size o h e)

  -- Whoever reads page after page until the end reads the whole listing, each entry once and in
  -- order, whatever the size of the buffer is, if it is not zero.
  pub read_pages_all :
      (l : List A) (size fuel : ℕ) → 0 < size → length l < fuel → read_pages fuel l size 0 ≡ l
  read_pages_all l size fuel h enough = read_pages_from fuel l size 0 h (omega (arith, enough))

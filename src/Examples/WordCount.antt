-- ===== src/Examples/WordCount.antt =====
-- examples/04_word_count.py. A word is a number here, as the keys of a dict are only compared. The
-- methods of Python's strings are parameters: `split` stands for `lower` and `split`, which give a
-- text's words, `strip` takes the punctuation off.
use nano_ray.Prelude.{
  ℕ, ◌+◌, ◌≡◌, refl, ap, List, [], ◌∷◌, ◌++◌, map, none, Bool, if◌then◌else◌, arith, ◌==◌,
  get_or_else, inl, inr, Bool-cases, ==_iff,
}
use nano_ray.Prelude.Dict.{Dict, lookup, insert, lookup-insert, IsUnique, insert-IsUnique}

-- `counts.get(word, 0)`
abbrev pub count_of : ℕ → Dict ℕ → ℕ
count_of word counts = get_or_else (lookup word counts) 0

-- `merged[word] = merged.get(word, 0) + count`
unfoldable pub add_count : ℕ → ℕ → Dict ℕ → Dict ℕ
add_count word count merged = insert word (count_of word merged + count) merged

-- The inner loop of `word_count_reduce`.
unfoldable pub merge : Dict ℕ → Dict ℕ → Dict ℕ
unfolding add_count
merge [] merged = merged
merge ((word, count) ∷ counts) merged = merge counts (add_count word count merged)

unfoldable pub merge_all : List (Dict ℕ) → Dict ℕ → Dict ℕ
unfolding merge
merge_all [] merged = merged
merge_all (counts ∷ count_list) merged = merge_all count_list (merge counts merged)

unfoldable pub word_count_reduce : List (Dict ℕ) → Dict ℕ
unfolding merge_all
word_count_reduce count_list = merge_all count_list []

count_of-add_count :
    (w word n : ℕ) (d : Dict ℕ)
    → count_of w (add_count word n d) ≡ count_of w d + (if w == word then n else 0)
unfolding add_count
count_of-add_count w word n d =
    ground (arith, lookup-insert word w (count_of word d + n) d, ==_iff w word, same)
  where
    same : w ≡ word → count_of w d ≡ count_of word d
    same e = ap (λ x. count_of x d) e

-- What a dict says of a word, all its entries taken together.
unfoldable sum_of : ℕ → Dict ℕ → ℕ
sum_of w [] = 0
sum_of w ((word, n) ∷ d) = (if w == word then n else 0) + sum_of w d

count_of-merge : (w : ℕ) (d m : Dict ℕ) → count_of w (merge d m) ≡ count_of w m + sum_of w d
unfolding merge sum_of
count_of-merge w [] m = omega arith
count_of-merge w ((word, n) ∷ d) m =
    omega (arith, count_of-merge w d (add_count word n m), count_of-add_count w word n m)

sum_of-absent : (w : ℕ) (d : Dict ℕ) → lookup w d ≡ none → sum_of w d ≡ 0
unfolding sum_of lookup
sum_of-absent w [] h = refl
sum_of-absent w ((word, n) ∷ d) h = ground (arith, sum_of-absent w d)

sum_of-count_of : (w : ℕ) (d : Dict ℕ) → IsUnique d → sum_of w d ≡ count_of w d
unfolding sum_of lookup
sum_of-count_of w [] u = refl
sum_of-count_of w ((word, n) ∷ d) u =
    ground (arith, sum_of-absent w d, sum_of-count_of w d u.1, u.0, ==_iff w word)

module _ {Text : Type 0} (split : Text → List ℕ) (strip : ℕ → ℕ) (is_blank : ℕ → Bool) where
  -- The loop of `word_count_map`.
  unfoldable pub count_words : List ℕ → Dict ℕ → Dict ℕ
  unfolding add_count
  count_words [] counts = counts
  count_words (word ∷ words) counts =
      count_words words (if is_blank (strip word) then counts else add_count (strip word) 1 counts)

  unfoldable pub word_count_map : Text → Dict ℕ
  unfolding count_words
  word_count_map text = count_words (split text) []

  -- How often a word stands in a list of words, punctuation aside.
  unfoldable pub occurs : ℕ → List ℕ → ℕ
  occurs w [] = 0
  occurs w (word ∷ words) =
      (if is_blank (strip word) then 0 else if w == strip word then 1 else 0) + occurs w words

  unfoldable pub all_words : List Text → List ℕ
  all_words [] = []
  all_words (text ∷ texts) = split text ++ all_words texts

  occurs-append : (w : ℕ) (xs ys : List ℕ) → occurs w (xs ++ ys) ≡ occurs w xs + occurs w ys
  unfolding occurs
  occurs-append w [] ys = omega arith
  occurs-append w (x ∷ xs) ys = omega (arith, occurs-append w xs ys)

  count_of-count_words :
      (w : ℕ) (words : List ℕ) (d : Dict ℕ)
      → count_of w (count_words words d) ≡ count_of w d + occurs w words
  unfolding count_words occurs
  count_of-count_words w [] d = omega arith
  count_of-count_words w (word ∷ words) d = elim (Bool-cases (is_blank (strip word))) [
    | inl blank ↦ rw blank (omega (arith, count_of-count_words w words d))
    | inr kept ↦ rw kept (
        omega (
          arith,
          count_of-count_words w words (add_count (strip word) 1 d),
          count_of-add_count w (strip word) 1 d,
        ))
  ]

  count_words-IsUnique : (words : List ℕ) (d : Dict ℕ) → IsUnique d → IsUnique (count_words words d)
  unfolding count_words add_count
  count_words-IsUnique [] d u = u
  count_words-IsUnique (word ∷ words) d u = elim (Bool-cases (is_blank (strip word))) [
    | inl blank ↦ rw blank (count_words-IsUnique words d u)
    | inr kept ↦ rw kept (
        count_words-IsUnique words _
          (insert-IsUnique (strip word) (count_of (strip word) d + 1) d u))
  ]

  merge_all-occurs :
      (w : ℕ) (texts : List Text) (m : Dict ℕ)
      → count_of w (merge_all (map word_count_map texts) m)
        ≡ count_of w m + occurs w (all_words texts)
  unfolding merge_all all_words word_count_map lookup occurs
  merge_all-occurs w [] m = omega arith
  merge_all-occurs w (text ∷ texts) m = omega (
    arith,
    merge_all-occurs w texts (merge (word_count_map text) m),
    count_of-merge w (word_count_map text) m,
    sum_of-count_of w (word_count_map text) (count_words-IsUnique (split text) [] tt),
    count_of-count_words w (split text) [],
    occurs-append w (split text) (all_words texts),
  )

  -- However a corpus is cut into texts, mapping the texts and reducing the results counts each word
  -- as often as it stands in them, punctuation and empty words aside.
  pub word_count_reduce-occurs :
      (w : ℕ) (texts : List Text)
      → count_of w (word_count_reduce (map word_count_map texts)) ≡ occurs w (all_words texts)
  unfolding word_count_reduce lookup
  word_count_reduce-occurs w texts = omega (arith, merge_all-occurs w texts [])

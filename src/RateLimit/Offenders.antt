-- ===== src/RateLimit/Offenders.antt =====
-- The lists of top offenders: sorted, of the right length, and with no larger count left out.
use stellar_portfolio_rebala.Prelude.{
  ℕ, zero, suc, ◌≤◌, min, String, ◌≡◌, ap, ◌∙◌, Bool, true, false, ◌&&◌, List, [], ◌∷◌, arith,
  length, any, take, All, ◌==◌, str_eq,
}
use stellar_portfolio_rebala.Prelude.Table.{Table}
use stellar_portfolio_rebala.Prelude.Sort.{
  sort, IsSorted, StartsAfter, sort-IsSorted, any-sort, length-sort,
}
use stellar_portfolio_rebala.RateLimit.{RateLimitMetrics, by_count, get_top_offenders_by_ip}

by_count_total : (a b : String × ℕ) → by_count a b ≡ false → by_count b a ≡ true
by_count_total a b h = ground arith

abbrev pub is_entry : String → ℕ → String × ℕ → Bool
is_entry key count e = str_eq e.0 key && e.1 == count

length-take : {A : Type 0} (n : ℕ) (xs : List A) → length (take n xs) ≡ min n (length xs)
length-take zero xs = omega arith
length-take (suc n) [] = omega arith
length-take (suc n) (x ∷ xs) = omega (arith, length-take n xs)

take-StartsAfter :
    (x : String × ℕ) (n : ℕ) (xs : Table ℕ)
    → StartsAfter by_count x xs
    → StartsAfter by_count x (take n xs)
take-StartsAfter x zero xs h = tt
take-StartsAfter x (suc n) [] h = tt
take-StartsAfter x (suc n) (y ∷ ys) h = h

take-IsSorted : (n : ℕ) (xs : Table ℕ) → IsSorted by_count xs → IsSorted by_count (take n xs)
take-IsSorted zero xs h = tt
take-IsSorted (suc n) [] h = tt
take-IsSorted (suc n) (x ∷ xs) h = (take-StartsAfter x n xs h.0, take-IsSorted n xs h.1)

-- The first entry of a sorted list has the largest count.
first_largest :
    (key : String) (count : ℕ) (x : String × ℕ) (xs : Table ℕ)
    → IsSorted by_count (x ∷ xs)
    → any (is_entry key count) xs ≡ true
    → count ≤ x.1
first_largest key count x [] h e = cc e
first_largest key count x (y ∷ ys) h e =
    let rest = first_largest key count y ys h.1 in ground (arith, rest, h.0, e)

omitted_le :
    (key : String) (count n : ℕ) (xs : Table ℕ)
    → IsSorted by_count xs
    → any (is_entry key count) xs ≡ true
    → any (is_entry key count) (take n xs) ≡ false
    → All (λ f. count ≤ f.1) (take n xs)
omitted_le key count zero xs h e o = tt
omitted_le key count (suc n) [] h e o = tt
omitted_le key count (suc n) (x ∷ xs) h e o =
    let later : any (is_entry key count) xs ≡ true = ground (arith, e, o) in
    (first_largest key count x xs h later, omitted_le key count n xs h.1 later (ground (arith, o)))

-- The top offenders come with the larger count first, as many as the limit allows.
pub get_top_offenders_by_ip-IsSorted :
    (m : RateLimitMetrics) (limit : ℕ)
    → IsSorted by_count (get_top_offenders_by_ip m limit)
      × (length (get_top_offenders_by_ip m limit) ≡ min limit (length m.throttled_by_ip))
unfolding get_top_offenders_by_ip
get_top_offenders_by_ip-IsSorted m limit =
    let sorted = sort by_count m.throttled_by_ip in
    (
      take-IsSorted limit sorted (sort-IsSorted by_count by_count_total m.throttled_by_ip),
      length-take limit sorted ∙ ap (min limit) (length-sort by_count m.throttled_by_ip),
    )

-- An address that is counted but not listed has no larger count than any that is listed.
pub get_top_offenders_by_ip_largest :
    (m : RateLimitMetrics) (limit : ℕ) (ip : String) (count : ℕ)
    → any (is_entry ip count) m.throttled_by_ip ≡ true
    → any (is_entry ip count) (get_top_offenders_by_ip m limit) ≡ false
    → All (λ f. count ≤ f.1) (get_top_offenders_by_ip m limit)
unfolding get_top_offenders_by_ip
get_top_offenders_by_ip_largest m limit ip count counted omitted =
    omitted_le ip count limit (sort by_count m.throttled_by_ip)
      (sort-IsSorted by_count by_count_total m.throttled_by_ip)
      (any-sort by_count (is_entry ip count) m.throttled_by_ip ∙ counted) omitted

-- ===== src/RateLimits/Checking.antt =====
-- When a message passes its rate limits, and that the cache of specifications does not matter.
use remoulade.Prelude.{
  nat_eq, ℕ, ◌≡◌, refl, sym, ap, ◌∙◌, Bool, true, ◌&&◌, ◌||◌, List, [], ◌∷◌, Option, none, some,
  arith, if◌then◌else◌,
}
use remoulade.Prelude.Dict.{Dict, lookup, lookup-insert}
use remoulade.RateLimits.{
  passed, rate_limit_exceeded, parse_limits, hit_limits, check_limits, on_limits,
}

module _ {S : Type 0} (parse_many : ℕ → Option (List ℕ)) (hit : ℕ → ℕ → S → Bool × S) where
  -- Whether the counters accept every limit, hit one after the other.
  abbrev pub all_accept : ℕ → List ℕ → S → Bool
  all_accept key [] s = true
  all_accept key (limit ∷ limits) s =
      (hit limit key s).0 && all_accept key limits (hit limit key s).1

  -- The counters after every limit is hit.
  abbrev pub all_hit : ℕ → List ℕ → S → S
  all_hit key [] s = s
  all_hit key (limit ∷ limits) s = all_hit key limits (hit limit key s).1

  -- Each specification in the cache has the limits that parsing it gives.
  unfoldable pub IsParsed : Dict ℕ (List ℕ) → Type 0
  IsParsed cache =
      (spec : ℕ) (limits : List ℕ) → lookup spec cache ≡ some limits → parse_many spec ≡ some limits

  hits-all :
      (bypass : Bool) (key : ℕ) (limits : List ℕ) (s : S)
      → bypass || all_accept key limits s ≡ true
      → (hit_limits parse_many hit bypass key limits s).1 ≡ all_hit key limits s
  unfolding hit_limits
  hits-all bypass key [] s h = refl
  hits-all bypass key (limit ∷ limits) s h =
      ground (arith, hits-all bypass key limits (hit limit key s).1)

  hits-passed :
      (bypass : Bool) (key : ℕ) (limits : List ℕ) (s : S)
      → (hit_limits parse_many hit bypass key limits s).0
        ≡ (if bypass || all_accept key limits s then passed else rate_limit_exceeded)
  unfolding hit_limits
  hits-passed bypass key [] s = ground arith
  hits-passed bypass key (limit ∷ limits) s =
      ground (arith, hits-passed bypass key limits (hit limit key s).1)

  -- A message passes exactly if each limit, hit in turn, accepts it or the limits are bypassed; the
  -- limits are bypassed by counting every one of them and ignoring the answers.
  pub hit_limits-passed :
      (bypass : Bool) (key : ℕ) (limits : List ℕ) (s : S)
      → ((hit_limits parse_many hit bypass key limits s).0
          ≡ (if bypass || all_accept key limits s then passed else rate_limit_exceeded))
        × ((hit_limits parse_many hit true key limits s).1 ≡ all_hit key limits s)
  hit_limits-passed bypass key limits s =
      (hits-passed bypass key limits s, hits-all true key limits s refl)

  parse_limits-parse_many :
      (spec : ℕ) (cache : Dict ℕ (List ℕ)) (cached : Option (List ℕ))
      → lookup spec cache ≡ cached
      → IsParsed cache
      → (parse_limits parse_many hit spec cache).0 ≡ parse_many spec
  unfolding parse_limits IsParsed
  parse_limits-parse_many spec cache none e parsed = ground arith
  parse_limits-parse_many spec cache (some limits) e parsed = ground (arith, parsed spec limits e)

  parse_limits-IsParsed :
      (spec : ℕ) (cache : Dict ℕ (List ℕ)) (given : Option (List ℕ))
      → parse_many spec ≡ given
      → IsParsed cache
      → IsParsed (parse_limits parse_many hit spec cache).1
  unfolding parse_limits IsParsed
  parse_limits-IsParsed spec cache none made parsed other limits e =
      ground (arith, parsed other limits)
  parse_limits-IsParsed spec cache (some right) made parsed other limits e =
      ground (arith, parsed other limits, lookup-insert spec other right cache)

  no_cache-IsParsed : IsParsed []
  unfolding IsParsed lookup
  no_cache-IsParsed spec limits e = ground arith

  -- With a cache that holds what parsing gives, a check ends and counts as with an empty one, and it
  -- leaves such a cache: specifications are parsed alike however often they were seen.
  pub check_limits-IsParsed :
      (spec : Option ℕ) (bypass : Bool) (key : ℕ) (cache : Dict ℕ (List ℕ)) (s : S)
      → IsParsed cache
      → ((check_limits parse_many hit spec bypass key cache s).0
          ≡ (check_limits parse_many hit spec bypass key [] s).0)
        × IsParsed (check_limits parse_many hit spec bypass key cache s).1
  unfolding check_limits
  check_limits-IsParsed none bypass key cache s parsed = (refl, parsed)
  check_limits-IsParsed (some spec) bypass key cache s parsed = (
    ap (on_limits parse_many hit bypass key s) (
        parse_limits-parse_many spec cache (lookup spec cache) refl parsed
        ∙ sym (parse_limits-parse_many spec [] (lookup spec []) refl no_cache-IsParsed)),
    parse_limits-IsParsed spec cache (parse_many spec) refl parsed,
  )

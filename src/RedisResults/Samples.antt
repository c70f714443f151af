-- ===== src/RedisResults/Samples.antt =====
-- Tests of the results in redis: a server whose lists are in an association list.
use remoulade.Prelude.{
  nat_eq, nat_beq, ℕ, ◌≡◌, true, false, List, [], ◌∷◌, ◌++◌, Option, none, some, length,
  if◌then◌else◌,
}
use remoulade.Prelude.Dict.{Dict, lookup, insert, remove}
use remoulade.Message.{atom}
use remoulade.RedisResults.{Redis, Codec, Try, got, broken, get_results, get_result}
use remoulade.RedisResults.Pipelined.{one_by_one, get_results-one_by_one}
use remoulade.RedisResults.Trying.{EndsAt, get_result-Ends}

abbrev Server : Type 0
Server = Dict ℕ (List (List ℕ))

abbrev entries_of : Option (List (List ℕ)) → List (List ℕ)
entries_of none = []
entries_of (some ds) = ds

abbrev first_of : ℕ → List (List ℕ) → Server → Option (List ℕ) × Server
first_of key [] s = (none, s)
first_of key (d ∷ ds) s = (some d, insert key ds s)

abbrev last_of : List (List ℕ) → Option (List ℕ)
last_of [] = none
last_of (d ∷ []) = some d
last_of (d ∷ e ∷ ds) = last_of (e ∷ ds)

abbrev sample_server : Redis Server
sample_server = record {
  rpushx = λ key d s. elim (lookup key s) [
    | none ↦ (0, s)
    | some ds ↦ (length ds, insert key (ds ++ d ∷ []) s)
  ];
  lpop = λ key s. first_of key (entries_of (lookup key s)) s;
  rpoplpush = λ key s. (last_of (entries_of (lookup key s)), s);
  rpop = λ key s. (last_of (entries_of (lookup key s)), remove key s);
  delete = λ key s. remove key s;
  lpush = λ key d s. insert key (d ∷ entries_of (lookup key s)) s;
  pexpire = λ key ttl s. s;
  sadd = λ key i s. insert key ((i ∷ []) ∷ entries_of (lookup key s)) s;
  scard = λ key s. length (entries_of (lookup key s));
  exists = λ keys s. length keys;
}

abbrev sample_codec : Codec
sample_codec = record {
  encode = λ r. 1 ∷ [];
  decode =
      λ d. record { result = atom (length d); error = none; forgot = false; actor_name = none };
  forgotten = [];
}

get_results-one_by_one_example :
    (get_results sample_server sample_codec true true 1
      (2 ∷ 3 ∷ [])
      ((1, (7 ∷ []) ∷ []) ∷ (3, (8 ∷ []) ∷ []) ∷ [])).0
    ≡ one_by_one sample_server sample_codec true true
        (λ _. 3)
        (1 ∷ 2 ∷ 3 ∷ [])
        ((1, (7 ∷ []) ∷ []) ∷ (3, (8 ∷ []) ∷ []) ∷ [])
get_results-one_by_one_example =
    get_results-one_by_one sample_server sample_codec true true 1 (2 ∷ 3 ∷ [])
      ((1, (7 ∷ []) ∷ []) ∷ (3, (8 ∷ []) ∷ []) ∷ [])

-- Two broken connections before the data.
abbrev third_time : ℕ → Try
third_time n = if nat_beq n 2 then got (9 ∷ []) else broken none

get_result-Ends_example :
    (k : ℕ) × EndsAt 3 third_time (λ n. false) true 0 k (get_result 3 third_time (λ n. false) true)
get_result-Ends_example = get_result-Ends 3 third_time (λ n. false) true

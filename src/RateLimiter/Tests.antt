-- ===== src/RateLimiter/Tests.antt =====
-- The theorems on the limit at a Redis server that starts empty.
use facebook_clone.Prelude.{
  take, ◌/◌, ℕ, ◌+◌, ◌≡◌, refl, arith, true, Option, none, some, [], ◌∷◌, ◌++◌, indicator,
  if◌then◌else◌, min,
}
use facebook_clone.Shared.EntityId.{Text}
use facebook_clone.Shared.Text.{codes, text_eq}
use facebook_clone.RateLimiter.Counters.{Counters}
use facebook_clone.Shared.Expiry.{is_over, left_after}
use facebook_clone.RateLimiter.Identity.{Request, resolve_role, resolve_identifier}
use facebook_clone.RateLimiter.Middleware.{Limits, redis_key, dispatch, window}
use facebook_clone.RateLimiter.Window.{both_work, admitted, admitted_lem, again, again_lem}
use facebook_clone.RateLimiter.Bucket.{dispatch-shared}

record Memory : Type 0 where
  numbers : Text → ℕ
  lifetimes : Text → Option ℕ

abbrev server : Counters Memory
server = record {
  number = λ k m. m.numbers k;
  lifetime = λ k m. m.lifetimes k;
  incr = λ j m. record m { numbers = λ k. m.numbers k + indicator (text_eq j k) };
  expire = λ j t m. record m { lifetimes = λ k. if text_eq j k then some t else m.lifetimes k };
  wait = λ t m. record {
    numbers = λ k. if is_over t (m.lifetimes k) then 0 else m.numbers k;
    lifetimes = λ k. left_after t (m.lifetimes k);
  };
  number-incr = λ k j m. refl;
  lifetime-incr = λ k j m. refl;
  number-expire = λ k j t m h. refl;
  lifetime-expire = λ k j t m h g. refl;
  number-wait = λ k t m. refl;
  lifetime-wait = λ k t m. refl;
}

abbrev empty : Memory
empty = record { numbers = λ k. 0; lifetimes = λ k. none }

abbrev one_each : Text → ℕ
one_each who = 1

-- Somebody asks twice, and somebody else in between
admitted_lem_example :
    admitted server one_each
        (codes "a")
        (record { delay = 3; identifier = codes "a" }
          ∷ record { delay = 5; identifier = codes "b" }
          ∷ record { delay = 9; identifier = codes "a" }
          ∷ [])
        120
        empty
      + min 0 1
    ≡ min 2 1
unfolding text_eq
admitted_lem_example =
    admitted_lem server one_each 2 (codes "a")
      (record { delay = 3; identifier = codes "a" }
        ∷ record { delay = 5; identifier = codes "b" }
        ∷ record { delay = 9; identifier = codes "a" }
        ∷ [])
      120 empty (omega arith) (omega arith) refl

again_lem_example : (again server one_each 130 (codes "a") empty).allowed ≡ true
again_lem_example = again_lem server one_each 130 (codes "a") empty (omega arith) refl

-- The first part of the tokens that the server makes
abbrev head : Text
head = codes "eyJhbGciOiJIUzI1NiIsInR5cCI6IkpX"

abbrev request_of : Text → Request
request_of text = record {
  path = codes "/feed";
  authorization = some (codes "Bearer " ++ (head ++ text));
  forwarded_for = none;
  client_host = none;
}

abbrev limits : Limits
limits = record { guest_limit = 1; user_limit = 2; premium_limit = 3 }

-- The request of one user counts for another.
dispatch-shared_example :
    (let key =
        redis_key
          (resolve_identifier
            (request_of (codes "VCJ9.y"))
            (resolve_role (request_of (codes "VCJ9.y"))))
          (130 / window) in
      server.number key
        (dispatch server limits both_work 130
          (request_of (codes "VCJ9.x"))
          (λ r. codes "ok")
          empty).1
      ≡ 0 + 1)
unfolding text_eq take
dispatch-shared_example =
    dispatch-shared server limits 130 (λ r. codes "ok") (head ++ codes "VCJ9.x")
      (head ++ codes "VCJ9.y") (request_of (codes "VCJ9.x")) (request_of (codes "VCJ9.y")) empty
      refl (omega arith) (omega arith) refl refl

-- ===== src/Auth/Samples.antt =====
-- Concrete libraries for the tests of users: tokens that are written out, and a Redis server that
-- is a function.
use facebook_clone.Prelude.{
  leb, ◌&&◌, ℕ, zero, suc, ◌<◌, ◌≤◌, ◌≡◌, refl, arith, Option, none, some, [], ◌∷◌, ltb,
  if◌then◌else◌, ap,
}
use facebook_clone.Shared.EntityId.{Text}
use facebook_clone.Shared.Text.{text_eq}
use facebook_clone.Shared.TextEquality.{text_eq_refl}
use facebook_clone.Shared.Expiry.{is_over, left_after}
use facebook_clone.Cache.KeyValue.{KeyValue}
use facebook_clone.Cache.RedisCache.{Json}
use facebook_clone.Auth.Tokens.{Jwt, Payload, Hasher}

-- A text before a rest, with a mark at its end
abbrev pub put_text : Text → Text → Text
put_text [] rest = 0 ∷ rest
put_text (c ∷ text) rest = suc c ∷ put_text text rest

abbrev pub get_text : Text → Text × Text
get_text [] = ([], [])
get_text (zero ∷ rest) = ([], rest)
get_text (suc c ∷ rest) = let (text, more) = get_text rest in (c ∷ text, more)

get_text-put_text : (text rest : Text) → get_text (put_text text rest) ≡ (text, rest)
get_text-put_text [] rest = refl
get_text-put_text (c ∷ text) rest = ap (λ p. (c ∷ p.0, p.1)) (get_text-put_text text rest)

abbrev pub put_option : Option Text → Text → Text
put_option none rest = 0 ∷ rest
put_option (some text) rest = 1 ∷ put_text text rest

abbrev pub get_option : Text → Option Text × Text
get_option [] = (none, [])
get_option (zero ∷ rest) = (none, rest)
get_option (suc c ∷ rest) = let (text, more) = get_text rest in (some text, more)

get_option-put_option :
    (text : Option Text) (rest : Text) → get_option (put_option text rest) ≡ (text, rest)
get_option-put_option none rest = refl
get_option-put_option (some text) rest = ap (λ p. (some p.0, p.1)) (get_text-put_text text rest)

abbrev pub encode : Payload → Text
encode p = p.exp ∷ p.iat ∷ put_option p.sub (put_option p.address (put_option p.kind []))

abbrev pub decode_parts : ℕ → ℕ → Text → Payload
decode_parts exp iat rest =
    let (sub, after_sub) = get_option rest in
    let (address, after_address) = get_option after_sub in
    record {
      sub = sub;
      address = address;
      kind = (get_option after_address).0;
      iat = iat;
      exp = exp;
    }

abbrev pub decode : ℕ → Text → Option Payload
decode now [] = none
decode now (_ ∷ []) = none
decode now (exp ∷ iat ∷ rest) =
    if leb iat now && ltb now exp then some (decode_parts exp iat rest) else none

parts_lem :
    (p : Payload)
    → decode_parts p.exp p.iat (put_option p.sub (put_option p.address (put_option p.kind []))) ≡ p
parts_lem p =
    rw (get_option-put_option p.sub (put_option p.address (put_option p.kind []))) rw
      (get_option-put_option p.address (put_option p.kind [])) rw (get_option-put_option p.kind [])
      refl

pub decoded_lem :
    (now : ℕ) (p : Payload) → p.iat ≤ now → now < p.exp → decode now (encode p) ≡ some p
decoded_lem now p i h = ground (arith, parts_lem p)

pub expired_lem : (now : ℕ) (p : Payload) → p.exp ≤ now → decode now (encode p) ≡ none
expired_lem now p h = ground arith

abbrev pub jwt : Jwt
jwt = record {
  encode = encode;
  decode = decode;
  decode-encode = decoded_lem;
  decode-expired = expired_lem;
}

abbrev pub hasher : Hasher
hasher = record {
  hash = λ salt password. 1 ∷ password;
  verify = λ password hash. text_eq (1 ∷ password) hash;
  verify-hash = λ salt password. text_eq_refl (1 ∷ password);
  is_empty-hash = λ salt password. refl;
}

pub record Memory : Type 0 where
  pub values : Text → Option Text
  pub lifetimes : Text → Option ℕ

abbrev pub server : KeyValue Memory
server = record {
  get = λ k m. m.values k;
  lifetime = λ k m. m.lifetimes k;
  setex = λ j t v m. record {
    values = λ k. if text_eq j k then some v else m.values k;
    lifetimes = λ k. if text_eq j k then some t else m.lifetimes k;
  };
  delete = λ j m. record {
    values = λ k. if text_eq j k then none else m.values k;
    lifetimes = λ k. if text_eq j k then none else m.lifetimes k;
  };
  wait = λ t m. record {
    values = λ k. if is_over t (m.lifetimes k) then none else m.values k;
    lifetimes = λ k. left_after t (m.lifetimes k);
  };
  get-setex = λ k j t v m h. refl;
  lifetime-setex = λ k j t v m h. refl;
  get-delete = λ k j m. refl;
  lifetime-delete = λ k j m. refl;
  get-wait = λ k t m. refl;
  lifetime-wait = λ k t m. refl;
}

abbrev pub empty : Memory
empty = record { values = λ k. none; lifetimes = λ k. none }

-- A number written as one character
abbrev loads : Text → Option ℕ
loads [] = none
loads (n ∷ _) = some n

abbrev pub json : Json ℕ
json = record { dumps = λ n. n ∷ []; loads = loads; loads-dumps = λ n. refl }

-- ===== src/Chat/Order.antt =====
-- The keys of the table `messages`, and the order of a conversation.
use facebook_clone.Prelude.{
  Bool-cases, ◌<◌, ◌^◌, ◌≡◌, Bool, true, false, List, [], ◌∷◌, ◌==◌, arith, All, inl, inr,
}
use facebook_clone.Shared.Table.{select, count}
use facebook_clone.Shared.Table.Keys.{Unique}
use facebook_clone.Shared.Table.Order.{AreApart, AreAllApart, All-select}
use facebook_clone.Chat.Entities.{Message, ChatTables}
use facebook_clone.Chat.Repository.{is_newer}

abbrev pub same_id : Message → Message → Bool
same_id a b = b.id == a.id

-- The keys are unique, and each is a number of 128 bits.
abbrev pub IsSound : ChatTables → Type 0
IsSound d = Unique same_id d.messages × All (λ m. m.id < 2 ^ 128) d.messages

apart_of_count :
    (x : Message) (rows : List Message)
    → count (same_id x) rows ≡ 0
    → All (AreApart is_newer x) rows
unfolding count
apart_of_count x [] n = tt
apart_of_count x (y ∷ rows) n = (ground arith, apart_of_count x rows (ground arith))

pub Unique-AreAllApart : (rows : List Message) → Unique same_id rows → AreAllApart is_newer rows
Unique-AreAllApart [] u = tt
Unique-AreAllApart (x ∷ rows) u = (apart_of_count x rows u.0, Unique-AreAllApart rows u.1)

pub newer_transitive :
    (x y z : Message) → is_newer x y ≡ true → is_newer y z ≡ true → is_newer x z ≡ true
newer_transitive x y z p q = ground arith

pub newer_asymmetric : (x y : Message) → is_newer x y ≡ true → is_newer y x ≡ false
newer_asymmetric x y p = ground arith

pub AreAllApart-select :
    (q : Message → Bool) (rows : List Message)
    → AreAllApart is_newer rows
    → AreAllApart is_newer (select q rows)
unfolding select
AreAllApart-select q [] a = tt
AreAllApart-select q (x ∷ rows) a = elim (Bool-cases (q x)) [
  | inl y ↦ rw y (
    All-select is_newer newer_transitive newer_asymmetric (AreApart is_newer x) q rows a.0,
    AreAllApart-select q rows a.1,
  )
  | inr n ↦ rw n (AreAllApart-select q rows a.1)
]

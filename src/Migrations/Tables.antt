-- ===== src/Migrations/Tables.antt =====
-- What is under a name after both migrations, and after they were taken back.
use nestjs_stay_api.Common.{
  holds, ◌≡◌, refl, sym, ap, ◌∙◌, inl, inr, Bool, true, false, Option, none, some, List, ◌∷◌,
  String, ◌==◌, ◌||◌, is_some, Bool-cases, if◌then◌else◌, arith,
}
use nestjs_stay_api.Migrations.{Table, public_schema, security_log, tables}
use nestjs_stay_api.Migrations.Files.{
  names, made, dropped, dropped_held, not_held, made_other, dropped_other, covers-holds, made_named,
  made_still,
}

-- The tables of both migrations
abbrev pub created : List String
created = "security_logs" ∷ tables

-- What both migrations leave under a name, taken back
pub taken_back :
    (k : String) (o : Option Table)
    → (holds k created ≡ true → o ≡ none)
    → ((t : Table)
        → o ≡ some t
        → (r : String) → holds r created ≡ true
        → holds r t.references ≡ false)
    → dropped created k (made security_log k (made public_schema k o)) ≡ o
taken_back k o fresh apart = elim (Bool-cases (holds k created)) [
  | inl held ↦ dropped_held created k _ held ∙ sym (fresh held)
  | inr other ↦
      let unmade : made security_log k (made public_schema k o) ≡ o =
        made_other security_log k _ (not_held k created (names security_log) refl other)
        ∙ made_other public_schema k o (not_held k created (names public_schema) refl other) in
      ap (dropped created k) unmade ∙ dropped_other created k o other apart
]

or_right : (a b : Bool) → a ≡ false → a || b ≡ true → b ≡ true
or_right a b e h = ground (arith, e, h)

pub made_held :
    (k : String) (o : Option Table)
    → holds k created ≡ true
    → is_some (made security_log k (made public_schema k o)) ≡ true
made_held k o h = elim (Bool-cases ("security_logs" == k)) [
  | inl e ↦ made_named security_log k _ (rw e refl)
  | inr e ↦
      let listed : holds k tables ≡ true = or_right _ (holds k tables) e h in
      made_still security_log k _
        (made_named public_schema k o (covers-holds k (names public_schema) tables refl listed))
]

-- Two extensions that were made and then dropped
pub dropped_both :
    (u p h : Bool)
    → (if u then false else if p then false else if p then true else if u then true else h)
      ≡ (if u then false else if p then false else h)
dropped_both true p h = refl
dropped_both false true h = refl
dropped_both false false h = refl

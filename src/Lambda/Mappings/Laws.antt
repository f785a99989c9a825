-- ===== src/Lambda/Mappings/Laws.antt =====
-- The rows that the calls leave in the file of mappings: internal/lambda/event_source.go.
use twister_aws.Base.{
  Text, ◌≡◌, refl, sym, subst, ap, Bool, true, false, not, ◌&&◌, ◌||◌, List, [], ◌∷◌, ◌++◌, ◌==◌,
  eq_iff, eqb, length, arith, Bool-cases, inl, inr,
}
use twister_aws.Base.Files.{missing, holds}
use twister_aws.Base.Results.{ok, ◌>>=◌, bind_ok}
use twister_aws.Lambda.{EventSourceMapping}
use twister_aws.Lambda.Mappings.{
  MappingFile, load, save, has_arn, with_defaults, without, add_row, delete_row,
  add_event_source_mapping, delete_by_uuid,
}

-- No two rows are for the same queue.
unfoldable pub are_distinct : List EventSourceMapping → Bool
are_distinct [] = true
are_distinct (row ∷ rows) = not (has_arn row.event_source_arn rows) && are_distinct rows

has_arn-append :
    (arn : Text) (rows : List EventSourceMapping) (row : EventSourceMapping)
    → has_arn arn (rows ++ row ∷ []) ≡ (has_arn arn rows || row.event_source_arn == arn)
unfolding has_arn
has_arn-append arn [] row = ground arith
has_arn-append arn (r ∷ rows) row =
    let others = has_arn-append arn rows row in ground (arith, others)

are_distinct-append :
    (rows : List EventSourceMapping) (row : EventSourceMapping)
    → are_distinct rows ≡ true
    → has_arn row.event_source_arn rows ≡ false
    → are_distinct (rows ++ row ∷ []) ≡ true
unfolding are_distinct has_arn
are_distinct-append [] row h f = ground arith
are_distinct-append (r ∷ rows) row h f =
    let others = are_distinct-append rows row (ground (arith, h)) (ground (arith, f)) in
    let more = has_arn-append r.event_source_arn rows row in
    ground (
      arith,
      h,
      f,
      others,
      more,
      eq_iff row.event_source_arn r.event_source_arn,
      eq_iff r.event_source_arn row.event_source_arn,
    )

has_arn-without :
    (arn uuid : Text) (rows : List EventSourceMapping)
    → has_arn arn rows ≡ false
    → has_arn arn (without uuid rows) ≡ false
unfolding has_arn without
has_arn-without arn uuid [] h = refl
has_arn-without arn uuid (r ∷ rows) h =
    let others = has_arn-without arn uuid rows (ground (arith, h)) in ground (arith, h, others)

are_distinct-without :
    (uuid : Text) (rows : List EventSourceMapping)
    → are_distinct rows ≡ true
    → are_distinct (without uuid rows) ≡ true
unfolding are_distinct without
are_distinct-without uuid [] h = refl
are_distinct-without uuid (r ∷ rows) h =
    let others = are_distinct-without uuid rows (ground (arith, h)) in
    let fewer = has_arn-without r.event_source_arn uuid rows (ground (arith, h)) in
    ground (arith, h, others, fewer)

load-save :
    (written : Bool) (rows : List EventSourceMapping) (file : MappingFile)
    → save written rows ≡ ok file
    → load file ≡ ok rows
unfolding load save
load-save true rows file h = let e : holds rows ≡ file = cc in ap load (sym e)
load-save false rows file h = ground arith

missing-distinct :
    (rows : List EventSourceMapping) → load missing ≡ ok rows → are_distinct rows ≡ true
unfolding load are_distinct
missing-distinct rows l = let e : [] ≡ rows = cc in subst (λ x. are_distinct x ≡ true) e refl

-- A file whose rows, if it can be read, are distinct.
pub record HasDistinct (file : MappingFile) : Type 0 where
  pub distinct : (rows : List EventSourceMapping) → load file ≡ ok rows → are_distinct rows ≡ true

save-HasDistinct :
    (written : Bool) (rows : List EventSourceMapping) (file : MappingFile)
    → are_distinct rows ≡ true
    → save written rows ≡ ok file
    → HasDistinct file
save-HasDistinct written rows file d h =
    let loaded = load-save written rows file h in
    record {
      distinct = λ found l. let e : rows ≡ found = cc in subst (λ x. are_distinct x ≡ true) e d;
    }

add_row-HasDistinct :
    (written : Bool) (m : EventSourceMapping) (rows : List EventSourceMapping) (after : MappingFile)
    → are_distinct rows ≡ true
    → add_row written m rows ≡ ok after
    → HasDistinct after
unfolding add_row with_defaults
add_row-HasDistinct written m rows after d h = elim (Bool-cases (has_arn m.event_source_arn rows)) [
  | inl t ↦ absurd (ground (arith, t, h))
  | inr f ↦
      save-HasDistinct written (rows ++ with_defaults m ∷ []) after
        (are_distinct-append rows (with_defaults m) d f) (ground (arith, f, h))
]

delete_row-HasDistinct :
    (written : Bool) (uuid : Text) (rows : List EventSourceMapping) (after : MappingFile)
    → are_distinct rows ≡ true
    → delete_row written uuid rows ≡ ok after
    → HasDistinct after
unfolding delete_row
delete_row-HasDistinct written uuid rows after d h =
    elim (Bool-cases (eqb (length (without uuid rows)) (length rows))) [
      | inl t ↦ absurd (ground (arith, t, h))
      | inr f ↦
          save-HasDistinct written (without uuid rows) after (are_distinct-without uuid rows d)
            (ground (arith, f, h))
    ]

pub add_event_source_mapping-HasDistinct :
    (written : Bool) (m : EventSourceMapping) (before after : MappingFile)
    → HasDistinct before
    → add_event_source_mapping written m before ≡ ok after
    → HasDistinct after
unfolding add_event_source_mapping
add_event_source_mapping-HasDistinct written m before after d h =
    elim (Bool-cases ((m.function_name == []) || (m.event_source_arn == []))) [
      | inl t ↦ absurd (ground (arith, t, h))
      | inr f ↦
          let rest : (load before >>= add_row written m) ≡ ok after = ground (arith, f, h) in
          bind_ok (load before) (add_row written m) rest
            λ rows read saved. add_row-HasDistinct written m rows after (d.distinct rows read) saved
    ]

pub delete_by_uuid-HasDistinct :
    (written : Bool) (uuid : Text) (before after : MappingFile)
    → HasDistinct before
    → delete_by_uuid written uuid before ≡ ok after
    → HasDistinct after
unfolding delete_by_uuid
delete_by_uuid-HasDistinct written uuid before after d h = elim (Bool-cases (uuid == [])) [
  | inl t ↦ absurd (ground (arith, t, h))
  | inr f ↦
      let rest : (load before >>= delete_row written uuid) ≡ ok after = ground (arith, f, h) in
      bind_ok (load before) (delete_row written uuid) rest λ rows read saved.
        delete_row-HasDistinct written uuid rows after (d.distinct rows read) saved
]

pub missing-HasDistinct : HasDistinct missing
missing-HasDistinct = record { distinct = missing-distinct }

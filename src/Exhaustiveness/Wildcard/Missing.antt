-- ===== src/Exhaustiveness/Wildcard/Missing.antt =====
-- compiler/hash-exhaustiveness/src/wildcard.rs: the missing constructors are those of the values that no
-- pattern matches.
use hashc.Prelude.{◌≡◌, sym, ap, ◌∙◌, Bool, not, ◌&&◌, some, List, [], ◌++◌, map}
use hashc.Prelude.Bytes.{All}
use hashc.Exhaustiveness.Array.{◌>>=◌}
use hashc.Exhaustiveness.Construct.{DeconstructedCtor}
use hashc.Exhaustiveness.Construct.Cover.{Value, Column, any_matches, to_split}
use hashc.Exhaustiveness.Wildcard.{not_wildcards, split_wildcard, iter_missing_ctors}
use hashc.Exhaustiveness.Wildcard.Parts.{SplitsOn, parts-AreMissing, all_parts}
use hashc.Exhaustiveness.Wildcard.Unlisted.{
  unlisted, split_all-not_wildcards, split_all-append, filter_missing-append,
}

-- The wildcard of a type is split against a column of patterns, and the constructors that are missing
-- are taken. The type's constructors are the single one, variants, integer ranges in order or arrays of
-- lengths below 2^62, the column's those of the same family and wildcards; and there may be
-- NonExhaustive, which is all that the types of strings, of floats and of unbounded integers
-- and those that are secretly empty have, and then against any column. There is no panic.
-- NonExhaustive is missing wherever the type has it. For any value another missing constructor has it
-- exactly if a constructor of the type has it and none of the column's but the wildcards.
pub iter_missing_ctors-any_matches :
    (cols : List Column) (is_open : Bool) (cs : List DeconstructedCtor) (v : Value)
    → All (SplitsOn (not_wildcards cs)) cols
    → (left : List DeconstructedCtor) × ((split_wildcard
            (record { matrix_ctors = []; all_ctors = map to_split cols ++ unlisted is_open })
            cs
          >>= iter_missing_ctors)
        ≡ some (left ++ unlisted is_open))
      × (any_matches left v
          ≡ (any_matches (map to_split cols) v && not (any_matches (not_wildcards cs) v)))
unfolding split_wildcard iter_missing_ctors
iter_missing_ctors-any_matches cols is_open cs v h =
    let seen = not_wildcards cs in
    let (parts, all) = all_parts cols seen v h in
    let missing = parts-AreMissing seen parts v all.decides all.answers in
    (
      missing.left,
      ap
            (λ r.
              (r >>= λ all. some (record { matrix_ctors = seen; all_ctors = all }))
              >>= iter_missing_ctors)
            (split_all-append cs (map to_split cols) is_open
              ∙ ap (λ r. r >>= λ outs. some (outs ++ unlisted is_open))
                  (sym (split_all-not_wildcards cols cs) ∙ all.result))
          ∙ filter_missing-append seen parts is_open
          ∙ ap (λ r. r >>= λ left. some (left ++ unlisted is_open)) missing.result,
      missing.exact ∙ ap (λ b. b && not (any_matches seen v)) all.covers,
    )

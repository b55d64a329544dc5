-- ===== src/Exhaustiveness/Wildcard/Parts.antt =====
-- compiler/hash-exhaustiveness/src/wildcard.rs: the parts of a type's constructors, and those that are left of
-- them once the covered ones are taken out.
use hashc.Prelude.{
  ◌≡◌, refl, sym, ap, ◌∙◌, subst, Bool, true, false, not, ◌&&◌, ◌||◌, Option, some, List, [], ◌∷◌,
  ◌++◌, map, if◌then◌else◌, arith, some_injective,
}
use hashc.Prelude.Bytes.{All}
use hashc.Exhaustiveness.Construct.{DeconstructedCtor, split_ctor, is_ctor_covered_by_any}
use hashc.Exhaustiveness.Construct.Cover.{
  Value, Column, IsColumn, matches, any_matches, to_split, used, Decides,
}
use hashc.Exhaustiveness.Construct.Parts.{HasValue, AreParts}
use hashc.Exhaustiveness.Construct.Split.{split_ctor-AreParts}
use hashc.Exhaustiveness.Wildcard.{split_all, filter_missing}

any_matches-append :
    (xs ys : List DeconstructedCtor) (v : Value)
    → any_matches (xs ++ ys) v ≡ (any_matches xs v || any_matches ys v)
unfolding any_matches
any_matches-append [] ys v = refl
any_matches-append (x ∷ xs) ys v =
    rw (any_matches-append xs ys v) (or_assoc (matches x v) (any_matches xs v) (any_matches ys v))
  where
    or_assoc : (a b c : Bool) → (a || (b || c)) ≡ ((a || b) || c)
    or_assoc true b c = refl
    or_assoc false b c = refl

-- The test does not panic.
abbrev Answers : List DeconstructedCtor → DeconstructedCtor → Type 0
Answers cs p = (b : Bool) × (is_ctor_covered_by_any p cs ≡ some b)

-- What is left of some constructors once those that are covered are taken out.
pub record AreMissing (cs parts : List DeconstructedCtor) (v : Value) : Type 0 where
  pub left : List DeconstructedCtor
  pub result : filter_missing cs parts ≡ some left
  pub exact : any_matches left v ≡ (any_matches parts v && not (any_matches cs v))

cons_lem :
    (p : DeconstructedCtor) (left : List DeconstructedCtor) (v : Value) (b rest m u : Bool)
    → (if m then some b else some u) ≡ some u
    → m ≡ matches p v
    → any_matches left v ≡ (rest && not u)
    → any_matches (if b then left else p ∷ left) v ≡ ((m || rest) && not u)
unfolding any_matches
cons_lem p left v true rest true false d e h = absurd (ground (arith, some_injective d))
cons_lem p left v true true true true d e h = h
cons_lem p left v true false true true d e h = h
cons_lem p left v true rest false u d e h = h
cons_lem p left v false rest true true d e h = absurd (ground (arith, some_injective d))
cons_lem p left v false rest true false d e h = rw (sym e) refl
cons_lem p left v false rest false u d e h = rw (sym e) h

pub parts-AreMissing :
    (cs parts : List DeconstructedCtor) (v : Value)
    → All (Decides v cs) parts
    → All (Answers cs) parts
    → AreMissing cs parts v
unfolding filter_missing any_matches
parts-AreMissing cs [] v h k = record { left = []; result = refl; exact = refl }
parts-AreMissing cs (p ∷ parts) v (h, hs) ((b, e), ks) =
    let more = parts-AreMissing cs parts v hs ks in
    record {
      left = if b then more.left else p ∷ more.left;
      result = rw (e, more.result) refl;
      exact =
          cons_lem p more.left v b (any_matches parts v) (matches p v) (any_matches cs v)
            (rw e at h) refl more.exact;
    }

All-pull :
    (P : Value → DeconstructedCtor → Type 0) (xs : List DeconstructedCtor)
    → ((v : Value) → All (P v) xs)
    → All (λ x. (v : Value) → P v x) xs
All-pull P [] f = tt
All-pull P (x ∷ xs) f = ((λ v. (f v).0), All-pull P xs (λ v. (f v).1))

HasValue-Answers :
    (cs parts : List DeconstructedCtor)
    → All HasValue parts
    → All (λ p. (v : Value) → Decides v cs p) parts
    → All (Answers cs) parts
HasValue-Answers cs [] h d = tt
HasValue-Answers cs (p ∷ parts) ((v, e), hs) (d, ds) =
    ((any_matches cs v, at_value (matches p v) e (d v)), HasValue-Answers cs parts hs ds)
  where
    at_value : (m : Bool) {a b : Option Bool} → m ≡ true → (if m then a else b) ≡ b → a ≡ b
    at_value true e d = d
    at_value false e d = absurd (ground (arith, e))

-- All parts of the type's constructors.
pub record AllParts (cols : List Column) (cs parts : List DeconstructedCtor) (v : Value)
    : Type 0 where
  pub result : split_all cs (map to_split cols) ≡ some parts
  pub covers : any_matches parts v ≡ any_matches (map to_split cols) v
  pub answers : All (Answers cs) parts
  pub decides : All (Decides v cs) parts

All-append :
    (P : DeconstructedCtor → Type 0) (xs ys : List DeconstructedCtor)
    → All P xs
    → All P ys
    → All P (xs ++ ys)
All-append P [] ys h i = i
All-append P (x ∷ xs) ys (h, hs) i = (h, All-append P xs ys hs i)

-- Each constructor of a type is split against the same column.
abbrev pub SplitsOn : List DeconstructedCtor → Column → Type 0
SplitsOn cs col = IsColumn col × (used col ≡ cs)

column-Answers :
    (col : Column) (v : Value) (parts : List DeconstructedCtor)
    → IsColumn col
    → AreParts col v parts
    → All (Answers (used col)) parts
column-Answers col v parts h a = HasValue-Answers (used col) parts a.inhabited (
    All-pull (λ w p. Decides w (used col) p) parts
      (λ w.
        let (others, b) = split_ctor-AreParts col w h in
        subst (All (Decides w (used col))) (some_injective (sym b.result ∙ a.result)) b.decides))

pub all_parts :
    (cols : List Column) (cs : List DeconstructedCtor) (v : Value)
    → All (SplitsOn cs) cols
    → (parts : List DeconstructedCtor) × AllParts cols cs parts v
unfolding split_all any_matches
all_parts [] cs v h = ([], record { result = refl; covers = refl; answers = tt; decides = tt })
all_parts (col ∷ cols) cs v ((h, e), hs) =
    let (parts, a) = split_ctor-AreParts col v h in
    let (rest, b) = all_parts cols cs v hs in
    (
      parts ++ rest,
      record {
        result = rw (ap (split_ctor (to_split col)) (sym e) ∙ a.result, b.result) refl;
        covers = any_matches-append parts rest v ∙ rw (a.covers, b.covers) refl;
        answers =
            All-append (Answers cs) parts rest
              (subst (λ c. All (Answers c) parts) e (column-Answers col v parts h a)) b.answers;
        decides =
            All-append (Decides v cs) parts rest (subst (λ c. All (Decides v c) parts) e a.decides)
              b.decides;
      },
    )

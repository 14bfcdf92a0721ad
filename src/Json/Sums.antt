-- ===== src/Json/Sums.antt =====
-- What a value adds up to, and the values on a stack.
use llmshim.Common.{ℕ, ◌+◌, ◌≤◌, ◌≡◌, refl, List, [], ◌∷◌, length, arith}
use llmshim.Json.{
  Value, null, boolean, number, text, array, object, Items, nil, cons, Fields, end, field,
  items_length, fields_length, total, total_items, total_fields, one,
}
use llmshim.Json.Stack.{sum_of, push_items, push_fields, push, children}

pub total_pos : (v : Value) → 1 ≤ total one v
unfolding total
total_pos null = omega arith
total_pos (boolean b) = omega arith
total_pos (number n) = omega arith
total_pos (text s c) = omega arith
total_pos (array c xs) = omega arith
total_pos (object fs) = omega arith

pub items_length-total : (xs : Items) → items_length xs ≤ total_items one xs
unfolding total
items_length-total nil = omega arith
items_length-total (cons x xs) = omega (arith, items_length-total xs, total_pos x)

pub fields_length-total : (fs : Fields) → fields_length fs ≤ total_fields one fs
unfolding total
fields_length-total end = omega arith
fields_length-total (field k c v fs) = omega (arith, fields_length-total fs, total_pos v)

pub length-total : (ps : List Value) → length ps ≤ sum_of (total one) ps
length-total [] = omega arith
length-total (v ∷ ps) = omega (arith, length-total ps, total_pos v)

sum-push_items :
    (own : Value → ℕ) (xs : Items) (ps : List Value)
    → sum_of (total own) (push_items xs ps) ≡ total_items own xs + sum_of (total own) ps
unfolding total
sum-push_items own nil ps = omega arith
sum-push_items own (cons x xs) ps = omega (arith, sum-push_items own xs (x ∷ ps))

sum-push_fields :
    (own : Value → ℕ) (fs : Fields) (ps : List Value)
    → sum_of (total own) (push_fields fs ps) ≡ total_fields own fs + sum_of (total own) ps
unfolding total
sum-push_fields own end ps = omega arith
sum-push_fields own (field k c v fs) ps = omega (arith, sum-push_fields own fs (v ∷ ps))

-- Taking a value off and pushing what it holds leaves out what it owns itself.
pub sum-push :
    (own : Value → ℕ) (v : Value) (ps : List Value)
    → own v + sum_of (total own) (push v ps) ≡ total own v + sum_of (total own) ps
unfolding total
sum-push own null ps = refl
sum-push own (boolean b) ps = refl
sum-push own (number n) ps = refl
sum-push own (text s c) ps = refl
sum-push own (array c xs) ps = omega (arith, sum-push_items own xs ps)
sum-push own (object fs) ps = omega (arith, sum-push_fields own fs ps)

-- What a value holds adds at least one each.
pub children-total : (v : Value) → children v + 1 ≤ total one v
unfolding total
children-total null = omega arith
children-total (boolean b) = omega arith
children-total (number n) = omega arith
children-total (text s c) = omega arith
children-total (array c xs) = omega (arith, items_length-total xs)
children-total (object fs) = omega (arith, fields_length-total fs)

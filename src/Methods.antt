-- ===== src/Methods.antt =====
-- shared/utilities.go: GetMissingMethods, and what dumpFaultyPlugin in multiplexer.go makes of it. Types
-- are numbers. `implements` is what reflection says of the whole interface; a method of an object has its
-- receiver as the first parameter. A message is the fault and the name of the method.
pub mod Coverage
mod Tests
use x_pipeline.Prelude.{
  ℕ, ◌+◌, ◌-◌, ◌*◌, Bool, true, false, not, ◌||◌, List, [], ◌∷◌, Option, none, some, Bytes, equal,
  length, ltb, ◌==◌, if◌then◌else◌,
}

pub record MethodType : Type 0 where
  pub name : Bytes
  pub ins : List ℕ
  pub outs : List ℕ

pub data MethodFault : Type 0 where
  missing invalid : Bytes → MethodFault

unfoldable pub method_by_name : List MethodType → Bytes → Option MethodType
method_by_name [] name = none
method_by_name (m ∷ ms) name =
    let later = method_by_name ms name in if equal m.name name then some m else later

-- The loops over the types, which are as many.
unfoldable pub differ : List ℕ → List ℕ → Bool
differ (x ∷ xs) (y ∷ ys) = let later = differ xs ys in if x == y then later else true
differ xs ys = false

abbrev pub behind_receiver : List ℕ → List ℕ
behind_receiver [] = []
behind_receiver (x ∷ xs) = xs

unfoldable pub signature_mismatch : MethodType → MethodType → Bool
unfolding differ
signature_mismatch wanted given =
    if not (length wanted.outs == length given.outs)
    then true
    else if not (length wanted.ins + 1 == length given.ins)
    then true
    else differ wanted.outs given.outs || differ wanted.ins (behind_receiver given.ins)

abbrev pub fault_of : MethodType → Option MethodType → List MethodFault → List MethodFault
fault_of wanted none later = missing wanted.name ∷ later
fault_of wanted (some given) later =
    if signature_mismatch wanted given then invalid wanted.name ∷ later else later

unfoldable pub faults : List MethodType → List MethodType → List MethodFault
unfolding method_by_name signature_mismatch
faults given [] = []
faults given (wanted ∷ more) =
    fault_of wanted (method_by_name given wanted.name) (faults given more)

-- The coverage is a fraction: its two numbers.
unfoldable pub get_missing_methods :
    Bool → List MethodType → List MethodType → (ℕ × ℕ) × List MethodFault
unfolding faults
get_missing_methods implements given wanted =
    let found = faults given wanted in
    if implements then ((1, 1), []) else ((length wanted - length found, length wanted), found)

pub data Looks : Type 0 where
  like_consumer like_producer like_stream : Looks

-- `>` on fractions whose denominators are not zero.
abbrev pub larger : ℕ × ℕ → ℕ × ℕ → Bool
larger (a, b) (c, d) = ltb (c * b) (a * d)

unfoldable pub looks_like : ℕ × ℕ → ℕ × ℕ → ℕ × ℕ → Looks
looks_like consumer producer stream =
    if larger consumer producer
    then if larger consumer stream then like_consumer else like_stream
    else if larger producer stream
    then like_producer
    else like_stream

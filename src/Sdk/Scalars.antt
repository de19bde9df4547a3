-- ===== src/Sdk/Scalars.antt =====
-- CASN1ObjectIdentifier and CASN1Integer of sign-sdk/src/asn1/. An identifier is given as
-- the list of its numbers, without its dots.
use opencie_pkcs.Base.{
  ℕ, zero, suc, ◌+◌, ◌*◌, ◌/◌, ◌%◌, ◌^◌, Bool, true, false, not, List, [], ◌∷◌, ◌++◌, ltb, leb,
  ◌==◌, if◌then◌else◌, length,
}
use mathlib.Core.List.{reverse}
pub mod Integer

-- `ceil(log2(n) / 7)` from 2 on: five at most for an int.
unfoldable pub septet_count_from : ℕ → ℕ → ℕ → ℕ
septet_count_from zero i n = i
septet_count_from (suc fuel) i n =
    let more = septet_count_from fuel (suc i) n in if leb n (128 ^ i) then i else more

-- The loop of a component, `i` septets from its end.
unfoldable pub component_loop : ℕ → ℕ → List ℕ
component_loop zero n = []
component_loop (suc i) n =
    let aux = n / 128 ^ i in
    let left = n % 128 ^ i in
    let rest = component_loop i left in
    if n == 0 then [] else (if left == 0 then aux % 256 else aux + 0x80) ∷ rest

unfoldable pub component_octets : ℕ → List ℕ
unfolding septet_count_from component_loop
component_octets n = if ltb n 2 then n ∷ [] else component_loop (septet_count_from 4 1 n) n

unfoldable pub components_octets : List ℕ → List ℕ
unfolding component_octets
components_octets [] = []
components_octets (n ∷ ns) = component_octets n ++ components_octets ns

unfoldable pub object_identifier : List ℕ → List ℕ
unfolding components_octets
object_identifier [] = []
object_identifier (a ∷ []) = []
object_identifier (a ∷ b ∷ ns) = (40 * a + b) ∷ components_octets ns

-- CASN1Integer(unsigned long): the digits as they are pushed, the last one first.
unfoldable pub integer_digits : ℕ → ℕ → List ℕ
integer_digits zero n = []
integer_digits (suc fuel) n =
    let rest = integer_digits fuel (n / 256) in if n == 0 then [] else (n % 256) ∷ rest

unfoldable pub new_integer : ℕ → List ℕ
unfolding integer_digits
new_integer n =
    let first = if n % 256 == 0x80 then 0x00 ∷ 0x80 ∷ [] else (n % 256) ∷ [] in
    reverse (first ++ integer_digits 8 (n / 256))

-- getLongValue, from the last octet: eight at most.
unfoldable pub long_value_from : ℕ → List ℕ → ℕ
long_value_from zero bs = 0
long_value_from (suc left) [] = 0
long_value_from (suc left) (b ∷ bs) = b + 256 * long_value_from left bs

unfoldable pub get_long_value : List ℕ → ℕ
unfolding long_value_from
get_long_value value = long_value_from 8 (reverse value)

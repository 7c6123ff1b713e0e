-- ===== src/Base.antt =====
-- include/treelite/base.h and src/optable.cc: the scalar types, the comparison operators and the
-- table of their names. A `float` is its IEEE 754 bit pattern, a number below 2 ^ 32, and an `int`
-- is its two's complement pattern; so a union of the two is one number, read in two ways.
use treelite.Prelude.{
  ℕ, ◌+◌, ◌-◌, ◌%◌, ◌^◌, Bool, not, ◌&&◌, Option, none, some, String, ltb, leb, ◌==◌, if◌then◌else◌,
  Result, ok, err, runtime_error, fault, ◌*◌, ◌/◌,
}
use text.Mathlib.Text.{◌==◌ as str_eq}

-- `typedef float tl_float`
abbrev pub TlFloat : Type 0
TlFloat = ℕ

-- `int` -1, and the modulus of a `size_t`
abbrev pub minus_one : ℕ
minus_one = 0xffff_ffff

abbrev pub int_max : ℕ
int_max = 0x7fff_ffff

abbrev pub size_mod : ℕ
size_mod = 0x1_0000_0000_0000_0000

-- `std::isnan`: all exponent bits set and a mantissa that is not zero.
unfoldable pub is_nan : TlFloat → Bool
is_nan x = ltb 0x7f80_0000 (x % 0x8000_0000)

-- `std::isfinite`
unfoldable pub is_finite : TlFloat → Bool
is_finite x = ltb (x % 0x8000_0000) 0x7f80_0000

-- The place of a float that is no NaN in the order of IEEE 754; both zeros share one.
unfoldable pub order_key : TlFloat → ℕ
order_key x = if ltb x 0x8000_0000 then 0x8000_0000 + x else 0x1_0000_0000 - x

unfoldable pub float_lt : TlFloat → TlFloat → Bool
float_lt x y = not (is_nan x) && (not (is_nan y) && ltb (order_key x) (order_key y))

unfoldable pub float_le : TlFloat → TlFloat → Bool
float_le x y = not (is_nan x) && (not (is_nan y) && leb (order_key x) (order_key y))

unfoldable pub float_eq : TlFloat → TlFloat → Bool
float_eq x y = not (is_nan x) && (not (is_nan y) && order_key x == order_key y)

pub data SplitFeatureType : Type 0 where
  no_split numerical categorical : SplitFeatureType

pub data Operator : Type 0 where
  no_op eq lt le gt ge : Operator

unfoldable pub op_name : Operator → String
op_name eq = "=="
op_name lt = "<"
op_name le = "<="
op_name gt = ">"
op_name ge = ">="
op_name no_op = ""

-- `optable`, as the lookup `optable.count` and `optable.at` make in it.
unfoldable pub optable : String → Option Operator
optable name =
    if str_eq name "=="
    then some eq
    else if str_eq name "<"
    then some lt
    else if str_eq name "<="
    then some le
    else if str_eq name ">"
    then some gt
    else if str_eq name ">="
    then some ge
    else none

unfoldable pub compare_with_op : TlFloat → Operator → TlFloat → Result Bool
unfolding float_eq float_lt float_le
compare_with_op lhs eq rhs = ok (float_eq lhs rhs)
compare_with_op lhs lt rhs = ok (float_lt lhs rhs)
compare_with_op lhs le rhs = ok (float_le lhs rhs)
compare_with_op lhs gt rhs = ok (float_lt rhs lhs)
compare_with_op lhs ge rhs = ok (float_le rhs lhs)
compare_with_op lhs no_op rhs = err (runtime_error "operator undefined")

-- `static_cast<uint32_t>(x)` of a float: the integer part, where it fits; otherwise the conversion
-- is undefined.
unfoldable pub float_to_uint32 : TlFloat → Result ℕ
float_to_uint32 x =
    let exponent = x / 0x80_0000 % 0x100 in
    let mantissa = 0x80_0000 + x % 0x80_0000 in
    if ltb exponent 127
    then ok 0
    else if ltb x 0x8000_0000 && ltb exponent 159
    then ok (
        if ltb exponent 150
        then mantissa / 2 ^ (150 - exponent)
        else mantissa * 2 ^ (exponent - 150))
    else err fault

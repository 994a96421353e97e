-- ===== src/Fixed/Tests.antt =====
-- Runs of the fixed-point code on the inputs of its own tests.
use epiphany.Base.{◌≡◌, refl, ◌≤◌, arith}
use epiphany.Base.Int.{pos, negsuc, pos_part, neg_part}
use epiphany.Base.Result.{ok, err}
use epiphany.Text.{codes, trim, strip_prefix, split_once, byte_len, drop_end_while}
use epiphany.Text.Decimal.{print_digits}
use epiphany.Model.{invalid_number}
use epiphany.Fixed.{display, from_str, i64_max}
use epiphany.Fixed.RoundTrip.{from_str-display}
use epiphany.Fixed.Bounds.{from_str_bounds}

display_negative : display (record { scaled = negsuc 22499 }) ≡ codes "-2.25"
unfolding display print_digits drop_end_while
display_negative = refl

display_small : display (record { scaled = pos 1 }) ≡ codes "0.0001"
unfolding display print_digits drop_end_while
display_small = refl

from_str_negative : from_str (codes " -2.25 ") ≡ ok (record { scaled = negsuc 22499 })
unfolding from_str strip_prefix trim byte_len split_once
from_str_negative = refl

from_str_precise : from_str (codes "1.23456") ≡ err (invalid_number (codes "1.23456"))
unfolding from_str strip_prefix trim byte_len split_once
from_str_precise = refl

from_str-display_example :
    from_str (display (record { scaled = negsuc 22499 })) ≡ ok (record { scaled = negsuc 22499 })
from_str-display_example =
    from_str-display (record { scaled = negsuc 22499 }) (omega arith) (λ e. ground arith)

from_str_bounds_example : (pos_part (negsuc 22499) ≤ i64_max) × (neg_part (negsuc 22499) ≤ i64_max)
from_str_bounds_example = from_str_bounds (codes " -2.25 ") from_str_negative

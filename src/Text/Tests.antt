-- ===== src/Text/Tests.antt =====
-- Numbers read and printed.
use zdash.Prelude.{◌≡◌, refl, some, codes}
use zdash.Text.Numbers.{parse_uint}
use zdash.Text.Print.{format_uint}

printed : format_uint 4096 ≡ codes "4096"
unfolding format_uint
printed = refl

read_back : parse_uint (codes "4096") ≡ some 4096
unfolding parse_uint
read_back = refl

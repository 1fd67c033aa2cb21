-- ===== src/Filters/Tests.antt =====
-- A filter with an action, a kernel address in hexadecimal and a size.
use perf_event_tests.Base.{ℕ, ◌+◌, ◌*◌, ◌≤◌, ◌≡◌, refl, arith, length}
use perf_event_tests.Filters.{
  make_address_filter, action_text, print_whitespace, whitespace, range_text, address_text,
  size_text, get_kernel_address, get_size, wide, ◌>>=◌,
}
use perf_event_tests.Filters.Bounds.{make_address_filter-fits}
use perf_event_tests.Sysfs.Chars.{codes}

abbrev counting : ℕ → ℕ
counting t = t

made : (make_address_filter counting 3 5).0 ≡ codes "filter0xffffffff0000000a/0xffffffff0000000e"
unfolding make_address_filter action_text print_whitespace whitespace range_text address_text
    size_text get_kernel_address get_size wide ◌>>=◌
made = refl

make_address_filter-fits_example :
    (length (make_address_filter counting 3 5).0 + 1 ≤ 8192)
    × (length (make_address_filter counting 3 5).0 ≤ 148 + 3 * 3)
make_address_filter-fits_example = make_address_filter-fits counting 3 5 (omega arith)

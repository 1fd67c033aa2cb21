-- ===== src/Version/Tests.antt =====
-- The version tests on "5.10.3-rc1".
use perf_event_tests.Base.{ℕ, ◌≡◌, refl, List, [], ◌∷◌, arith}
use perf_event_tests.Version.{check_linux_version_newer, check_linux_version_older}
use perf_event_tests.Version.Order.{
  IsNumber, check_linux_version_newer_lem, check_linux_version_older_lem,
}

abbrev rc : List ℕ
rc = b'-' ∷ b'r' ∷ b'c' ∷ b'1' ∷ []

abbrev five : List ℕ
five = b'5' ∷ []

abbrev ten : List ℕ
ten = b'1' ∷ b'0' ∷ []

abbrev three : List ℕ
three = b'3' ∷ []

five-IsNumber : IsNumber five
five-IsNumber = ((refl, tt), λ e. absurd (ground (arith, e)))

ten-IsNumber : IsNumber ten
ten-IsNumber = ((refl, (refl, tt)), λ e. absurd (ground (arith, e)))

three-IsNumber : IsNumber three
three-IsNumber = ((refl, tt), λ e. absurd (ground (arith, e)))

check_linux_version_newer_lem_example :
    check_linux_version_newer
      (b'5' ∷ b'.' ∷ b'1' ∷ b'0' ∷ b'.' ∷ b'3' ∷ b'-' ∷ b'r' ∷ b'c' ∷ b'1' ∷ [])
      5
      9
      200
    ≡ 1
check_linux_version_newer_lem_example =
    check_linux_version_newer_lem five ten three rc five-IsNumber ten-IsNumber three-IsNumber refl 5
      9 200 (omega arith) (omega arith) (omega arith) (omega arith) (omega arith) (omega arith)

check_linux_version_older_lem_example :
    check_linux_version_older
      (b'5' ∷ b'.' ∷ b'1' ∷ b'0' ∷ b'.' ∷ b'3' ∷ b'-' ∷ b'r' ∷ b'c' ∷ b'1' ∷ [])
      5
      11
      0
    ≡ 1
check_linux_version_older_lem_example =
    check_linux_version_older_lem five ten three rc five-IsNumber ten-IsNumber three-IsNumber refl 5
      11 0 (omega arith) (omega arith) (omega arith) (omega arith) (omega arith) (omega arith)

-- ===== src/Fuzzer/LogAttr/Pieces.antt =====
-- Printed numbers are scanned again, each by the conversion that printed it.
use perf_event_tests.Base.{
  ℕ, ◌^◌, ◌<◌, ◌≡◌, refl, sym, ap, ◌∙◌, some, List, [], ◌∷◌, ◌++◌, append_assoc,
}
use perf_event_tests.Report.Sscanf.{Conversion, decimal, hex, convert, scan_all}
use perf_event_tests.Report.Sscanf.Numbers.{IsWidth, signed_text-convert, hex_text-convert}
use perf_event_tests.Fuzzer.LogAttr.{Piece, piece, piece_text, pieces_text}

abbrev pub PieceFits : Piece → Type 0
PieceFits (piece (decimal bits) v) = IsWidth bits × (v < 2 ^ bits)
PieceFits (piece (hex bits) v) = IsWidth bits × (v < 2 ^ bits)

abbrev pub AllFit : List Piece → Type 0
AllFit [] = Unit {0}
AllFit (p ∷ ps) = PieceFits p × AllFit ps

abbrev pub conversions : List Piece → List Conversion
conversions [] = []
conversions (piece c v ∷ ps) = c ∷ conversions ps

abbrev pub values : List Piece → List ℕ
values [] = []
values (piece c v ∷ ps) = v ∷ values ps

pub piece_text-convert :
    (c : Conversion) (v : ℕ) (s : List ℕ)
    → PieceFits (piece c v)
    → convert c (piece_text (piece c v) ++ b' ' ∷ s) ≡ some (v, b' ' ∷ s)
piece_text-convert (decimal bits) v s fits = signed_text-convert bits v s fits.0 fits.1
piece_text-convert (hex bits) v s fits = hex_text-convert bits v s fits.0 fits.1

-- The space that was left before a number is passed.
after_space : (c : Conversion) (s : List ℕ) → convert c (b' ' ∷ s) ≡ convert c s
unfolding convert
after_space (decimal bits) s = refl
after_space (hex bits) s = refl

pub pieces_text-scan_all :
    (ps : List Piece) (tail : List ℕ)
    → AllFit ps
    → scan_all (conversions ps) (b' ' ∷ (pieces_text ps ++ tail)) ≡ values ps
unfolding scan_all
pieces_text-scan_all [] tail fit = refl
pieces_text-scan_all (piece c v ∷ ps) tail fit =
    let here : convert c (b' ' ∷ (pieces_text (piece c v ∷ ps) ++ tail))
        ≡ some (v, b' ' ∷ (pieces_text ps ++ tail)) =
      after_space c (pieces_text (piece c v ∷ ps) ++ tail)
      ∙ ap (convert c) (append_assoc (piece_text (piece c v)) (b' ' ∷ pieces_text ps) tail)
      ∙ piece_text-convert c v (pieces_text ps ++ tail) fit.0 in
    rw (scan_all, here) (ap (λ l. v ∷ l) (pieces_text-scan_all ps tail fit.1))

pub pieces_text-append :
    (ps qs : List Piece) (tail : List ℕ)
    → pieces_text (ps ++ qs) ++ tail ≡ pieces_text ps ++ (pieces_text qs ++ tail)
pieces_text-append [] qs tail = refl
pieces_text-append (p ∷ ps) qs tail =
    append_assoc (piece_text p) (b' ' ∷ pieces_text (ps ++ qs)) tail
    ∙ ap (λ l. piece_text p ++ b' ' ∷ l) (pieces_text-append ps qs tail)
    ∙ sym (append_assoc (piece_text p) (b' ' ∷ pieces_text ps) (pieces_text qs ++ tail))

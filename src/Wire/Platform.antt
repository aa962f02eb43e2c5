-- ===== src/Wire/Platform.antt =====
-- An MPI with the usual sizes of a 64-bit platform, as an instance of what the models ask of MPI.
use openfpm_vcluster.Prelude.{
  ℕ, ◌*◌, ◌/◌, ◌%◌, ◌<◌, ◌≡◌, ◌≢◌, refl, sym, ap, ◌∙◌, subst, ◌&&◌, Option, none, some, arith, ltb,
  ◌==◌, if◌then◌else◌,
}
use openfpm_vcluster.Wire.{
  CType, int_c, uint_c, short_c, ushort_c, char_c, uchar_c, size_c, long_c, float_c, double_c,
  other, Datatype, mpi_byte, mpi_int, mpi_unsigned, mpi_short, mpi_unsigned_short, mpi_char,
  mpi_unsigned_char, mpi_unsigned_long, mpi_long, mpi_float, mpi_double, Mpi, IsStandard,
  datatype_of,
}
use openfpm_vcluster.Wire.Vectors.{IsAbi}

abbrev pub width : Datatype → ℕ
width mpi_byte = 1
width mpi_int = 4
width mpi_unsigned = 4
width mpi_short = 2
width mpi_unsigned_short = 2
width mpi_char = 1
width mpi_unsigned_char = 1
width mpi_unsigned_long = 8
width mpi_long = 8
width mpi_float = 4
width mpi_double = 8

abbrev pub count_of : ℕ → ℕ → Option ℕ
count_of w n = if (n % w == 0) && ltb (n / w) 2147483648 then some (n / w) else none

abbrev pub usual_mpi : Mpi
usual_mpi = record { type_size = width; get_count = λ d n. count_of (width d) n }

whole : (d : Datatype) (k : ℕ) → k < 2147483648 → count_of (width d) (k * width d) ≡ some k
whole mpi_byte k h = ground arith
whole mpi_int k h = ground arith
whole mpi_unsigned k h = ground arith
whole mpi_short k h = ground arith
whole mpi_unsigned_short k h = ground arith
whole mpi_char k h = ground arith
whole mpi_unsigned_char k h = ground arith
whole mpi_unsigned_long k h = ground arith
whole mpi_long k h = ground arith
whole mpi_float k h = ground arith
whole mpi_double k h = ground arith

partial : (d : Datatype) (n : ℕ) → n % width d ≢ 0 → count_of (width d) n ≡ none
partial d n h = ground arith

pub usual_mpi-IsStandard : IsStandard usual_mpi
usual_mpi-IsStandard = record {
  byte_size = refl;
  double_size = refl;
  count_whole = whole;
  count_partial = partial;
}

abbrev pub usual_sizeof : CType → ℕ
usual_sizeof int_c = 4
usual_sizeof uint_c = 4
usual_sizeof short_c = 2
usual_sizeof ushort_c = 2
usual_sizeof char_c = 1
usual_sizeof uchar_c = 1
usual_sizeof size_c = 8
usual_sizeof long_c = 8
usual_sizeof float_c = 4
usual_sizeof double_c = 8
usual_sizeof (other s) = s

width_or : ℕ → Option Datatype → ℕ
width_or k none = k
width_or k (some d) = width d

named_width : (c : CType) → width_or (usual_sizeof c) (datatype_of c) ≡ usual_sizeof c
unfolding datatype_of width_or
named_width int_c = refl
named_width uint_c = refl
named_width short_c = refl
named_width ushort_c = refl
named_width char_c = refl
named_width uchar_c = refl
named_width size_c = refl
named_width long_c = refl
named_width float_c = refl
named_width double_c = refl
named_width (other s) = refl

named : (c : CType) (d : Datatype) → datatype_of c ≡ some d → width d ≡ usual_sizeof c
unfolding width_or
named c d e = ap (width_or (usual_sizeof c)) (sym e) ∙ named_width c

width_positive : (d : Datatype) → 0 < width d
width_positive d = grind arith

positive : (c : CType) (d : Datatype) → datatype_of c ≡ some d → 0 < usual_sizeof c
positive c d e = subst (λ k. 0 < k) (named c d e) (width_positive d)

pub usual_mpi-IsAbi : IsAbi usual_mpi usual_sizeof
usual_mpi-IsAbi = record { named = named; plain = λ s. refl; positive = positive }

-- ===== src/Spaces/Usable.antt =====
-- What a chosen kernel needs of the platform and of the vectors, by the compile flags of its file
-- in src/VecSim/spaces/CMakeLists.txt and the sizes of the chunks that it reads.
pub mod L2
pub mod Ip
pub mod Cosine
use vector_similarity.Base.{
  ℕ, ◌*◌, ◌%◌, ◌<◌, ◌≤◌, ◌≡◌, ◌⊎◌, inl, inr, Bool, true, false, List, [], ◌∷◌, arith, ◌==◌, ◌&&◌,
  ltb, leb, if◌then◌else◌, eq_cases, eq→==, ==_ne, refl, sym, ap, ◌∙◌, ◌/◌, ◌+◌,
}
use native.Mathlib.Nat.{div-add-mod, mul-mod_left, mul_assoc, mul_comm, add-zero}
use vector_similarity.Spaces.{
  Arch, other_arch, choose, Feature, sve2, sve, asimd, asimdhp, asimdfhm, asimddp, bf16, svebf16,
  avx512f, avx512bw, avx512vl, avx512vnni, avx512vbmi2, avx512_fp16, avx512_bf16, avx2, avx, fma3,
  f16c, sse, sse3, sse4_1, Platform, Choice, Metric, DataType, bfloat16, float16, float32, float64,
  int8, uint8, sq8, sq8_fp32, Tier, naive, big_endian, in_sve2, in_sve, in_neon, in_neon_hp,
  in_neon_dotprod, in_neon_bf16, in_sve_bf16, in_avx512f, in_avx512bw_vbmi2, in_avx512f_bw_vl_vnni,
  in_avx512fp16_vl, in_avx512bf16_vl, in_avx2, in_avx2_fma, in_avx, in_f16c, in_sse, in_sse3,
  in_sse4, size_of, align, aarch64, x86_64, opt_sve2, opt_sve, opt_neon, opt_neon_hp,
  opt_neon_dotprod, opt_neon_bf16, opt_sve_bf16, opt_avx512f, opt_avx512_bw_vbmi2,
  opt_avx512_f_bw_vl_vnni, opt_avx512_fp16_vl, opt_avx512_bf16_vl, opt_avx2, opt_avx2_fma, opt_avx,
  opt_f16c, opt_sse, opt_sse3, opt_sse4,
}

-- The instruction sets of a tier: the extensions that its flags name. The version of the architecture
-- in a flag `-march` is taken to come with them.
abbrev pub requires : Tier → List Feature
requires naive = []
requires big_endian = []
requires in_sve2 = sve2 ∷ []
requires in_sve = sve ∷ []
requires in_neon = asimd ∷ []
requires in_neon_hp = asimdhp ∷ asimdfhm ∷ []
requires in_neon_dotprod = asimddp ∷ []
requires in_neon_bf16 = bf16 ∷ []
requires in_sve_bf16 = svebf16 ∷ sve ∷ bf16 ∷ []
requires in_avx512f = avx512f ∷ []
requires in_avx512bw_vbmi2 = avx512bw ∷ avx512vbmi2 ∷ []
requires in_avx512f_bw_vl_vnni = avx512f ∷ avx512bw ∷ avx512vl ∷ avx512vnni ∷ []
requires in_avx512fp16_vl = avx512_fp16 ∷ avx512vl ∷ []
requires in_avx512bf16_vl = avx512_bf16 ∷ avx512vl ∷ []
requires in_avx2 = avx2 ∷ []
requires in_avx2_fma = avx2 ∷ fma3 ∷ []
requires in_avx = avx ∷ []
requires in_f16c = f16c ∷ fma3 ∷ avx ∷ []
requires in_sse = sse ∷ []
requires in_sse3 = sse3 ∷ []
requires in_sse4 = sse4_1 ∷ []

-- the elements that an x86 kernel reads at once
abbrev pub x86_chunk : DataType → ℕ
x86_chunk bfloat16 = 32
x86_chunk float16 = 32
x86_chunk float32 = 16
x86_chunk float64 = 8
x86_chunk int8 = 32
x86_chunk uint8 = 32
x86_chunk sq8 = 64
x86_chunk sq8_fp32 = 16

abbrev pub neon_chunk : DataType → ℕ
neon_chunk int8 = 16
neon_chunk uint8 = 16
neon_chunk sq8 = 16
neon_chunk _ = 0

-- the fewest elements that a kernel can be given; the SVE kernels take any number
abbrev pub chunk : DataType → Tier → ℕ
chunk t naive = 0
chunk t big_endian = 0
chunk t in_sve2 = 0
chunk t in_sve = 0
chunk t in_sve_bf16 = 0
chunk t in_neon = neon_chunk t
chunk t in_neon_dotprod = 16
chunk t in_neon_hp = 8
chunk t in_neon_bf16 = 8
chunk t _ = x86_chunk t

-- the macro that includes a tier, and the architecture that it is for
abbrev pub IsBuilt : Platform → Tier → Type 0
IsBuilt p naive = Unit
IsBuilt p big_endian = p.is_little_endian ≡ false
IsBuilt p in_sve2 = (p.arch ≡ aarch64) × (p.opt opt_sve2 ≡ true)
IsBuilt p in_sve = (p.arch ≡ aarch64) × (p.opt opt_sve ≡ true)
IsBuilt p in_neon = (p.arch ≡ aarch64) × (p.opt opt_neon ≡ true)
IsBuilt p in_neon_hp = (p.arch ≡ aarch64) × (p.opt opt_neon_hp ≡ true)
IsBuilt p in_neon_dotprod = (p.arch ≡ aarch64) × (p.opt opt_neon_dotprod ≡ true)
IsBuilt p in_neon_bf16 = (p.arch ≡ aarch64) × (p.opt opt_neon_bf16 ≡ true)
IsBuilt p in_sve_bf16 = (p.arch ≡ aarch64) × (p.opt opt_sve_bf16 ≡ true)
IsBuilt p in_avx512f = (p.arch ≡ x86_64) × (p.opt opt_avx512f ≡ true)
IsBuilt p in_avx512bw_vbmi2 = (p.arch ≡ x86_64) × (p.opt opt_avx512_bw_vbmi2 ≡ true)
IsBuilt p in_avx512f_bw_vl_vnni = (p.arch ≡ x86_64) × (p.opt opt_avx512_f_bw_vl_vnni ≡ true)
IsBuilt p in_avx512fp16_vl = (p.arch ≡ x86_64) × (p.opt opt_avx512_fp16_vl ≡ true)
IsBuilt p in_avx512bf16_vl = (p.arch ≡ x86_64) × (p.opt opt_avx512_bf16_vl ≡ true)
IsBuilt p in_avx2 = (p.arch ≡ x86_64) × (p.opt opt_avx2 ≡ true)
IsBuilt p in_avx2_fma = (p.arch ≡ x86_64) × (p.opt opt_avx2_fma ≡ true)
IsBuilt p in_avx = (p.arch ≡ x86_64) × (p.opt opt_avx ≡ true)
IsBuilt p in_f16c = (p.arch ≡ x86_64) × (p.opt opt_f16c ≡ true)
IsBuilt p in_sse = (p.arch ≡ x86_64) × (p.opt opt_sse ≡ true)
IsBuilt p in_sse3 = (p.arch ≡ x86_64) × (p.opt opt_sse3 ≡ true)
IsBuilt p in_sse4 = (p.arch ≡ x86_64) × (p.opt opt_sse4 ≡ true)

abbrev pub AllOn : (Feature → Bool) → List Feature → Type 0
AllOn has [] = Unit
AllOn has (f ∷ fs) = (has f ≡ true) × AllOn has fs

-- The kernel is for metric `m` and type `t`. The build includes the tier, the CPU has its instructions, the vector has a full chunk, and the
-- alignment is as before the call or divides the size of a vector.
pub record IsUsable (m : Metric) (t : DataType) (p : Platform) (dim before : ℕ) (c : Choice)
    : Type 0 where
  pub of_metric : c.metric ≡ m
  pub of_type : c.data_type ≡ t
  pub built : IsBuilt p c.tier
  pub runs : AllOn p.has (requires c.tier)
  pub long_enough : chunk t c.tier ≤ dim
  pub aligned : (c.alignment ≡ before) ⊎ ((dim * size_of t) % c.alignment ≡ 0)

-- a CPU with AVX512_VNNI has AVX512VL
abbrev pub VnniHasVl : Platform → Type 0
VnniHasVl p = p.has avx512vnni ≡ true → p.has avx512vl ≡ true

-- a CPU with half-precision numbers has the multiplication to single precision
abbrev pub HpHasFhm : Platform → Type 0
HpHasFhm p = p.has asimdhp ≡ true → p.has asimdfhm ≡ true

-- a CPU with BF16 in SVE has SVE and BF16
abbrev pub SveBf16HasBoth : Platform → Type 0
SveBf16HasBoth p = p.has svebf16 ≡ true → (p.has sve ≡ true) × (p.has bf16 ≡ true)

pub align-divides :
    (t : DataType) (lanes dim a : ℕ)
    → (align t lanes dim a ≡ a) ⊎ ((dim * size_of t) % align t lanes dim a ≡ 0)
align-divides t lanes dim a = elim (eq_cases (dim % lanes) 0) [
  | inl e ↦
      let q = dim / lanes in
      let s = size_of t in
      let split : dim ≡ q * lanes =
        sym (div-add-mod dim lanes) ∙ rw e (rw (mul_comm lanes q) (add-zero (q * lanes))) in
      rw (eq→== (dim % lanes) 0 e) (
        inr (
          ap (λ d. (d * s) % (lanes * s)) split
          ∙ rw (mul_assoc q lanes s) (mul-mod_left q (lanes * s))))
  | inr e ↦ rw (==_ne (dim % lanes) 0 e) (inl refl)
]

module _ {m : Metric} {t : DataType} {p : Platform} {dim a : ℕ} where
  pub naive-IsUsable : IsUsable m t p dim a (choose m t naive a)
  naive-IsUsable = record {
    of_metric = refl;
    of_type = refl;
    built = tt;
    runs = tt;
    long_enough = omega arith;
    aligned = inl refl;
  }

  -- an early return under a test
  pub return_if :
      {x y : Choice} (b : Bool)
      → (b ≡ true → IsUsable m t p dim a x)
      → (b ≡ false → IsUsable m t p dim a y)
      → IsUsable m t p dim a (if b then x else y)
  return_if true f g = f refl
  return_if false f g = g refl

  on_arch :
      {x y z : Choice} (r : Arch)
      → (r ≡ aarch64 → IsUsable m t p dim a x)
      → (r ≡ x86_64 → IsUsable m t p dim a y)
      → IsUsable m t p dim a z
      → IsUsable m t p dim a (elim r [ aarch64 ↦ x | x86_64 ↦ y | other_arch ↦ z ])
  on_arch aarch64 f g h = f refl
  on_arch x86_64 f g h = g refl
  on_arch other_arch f g h = h

  pub by_arch :
      {x y z : Choice}
      → (p.arch ≡ aarch64 → IsUsable m t p dim a x)
      → (p.arch ≡ x86_64 → IsUsable m t p dim a y)
      → IsUsable m t p dim a z
      → IsUsable m t p dim a (elim p.arch [ aarch64 ↦ x | x86_64 ↦ y | other_arch ↦ z ])
  by_arch = on_arch p.arch

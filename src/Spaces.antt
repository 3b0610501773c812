-- ===== src/Spaces.antt =====
-- src/VecSim/spaces: how a distance function is chosen for a metric, a data type, a dimension and
-- a platform. The kernels themselves are floating-point code and stay names.
pub mod L2
pub mod Ip
pub mod Cosine
pub mod Usable
pub mod Dispatch
use vector_similarity.Base.{
  ℕ, ◌*◌, ◌%◌, Bool, true, false, ◌&&◌, List, [], ◌∷◌, ltb, leb, ◌==◌, if◌then◌else◌,
}

-- the features that `getCpuOptimizationFeatures` reports. The choice reads all but asimdfhm, the
-- multiplication of half-precision numbers to single precision (+fp16fml).
pub data Feature : Type 0 where
  sve2 sve asimd asimdhp asimdfhm asimddp bf16 svebf16 : Feature
  avx512f avx512bw avx512vl avx512vnni avx512vbmi2 avx512_fp16 avx512_bf16 : Feature
  avx2 avx fma3 f16c sse sse3 sse4_1 : Feature

-- the `OPT_...` macros, which the build defines where the compiler has the flags
pub data Opt : Type 0 where
  opt_sve2 opt_sve opt_neon opt_neon_hp opt_neon_dotprod opt_neon_bf16 opt_sve_bf16 : Opt
  opt_avx512f opt_avx512_bw_vbmi2 opt_avx512_f_bw_vl_vnni opt_avx512_fp16_vl opt_avx512_bf16_vl :
      Opt
  opt_avx2 opt_avx2_fma opt_avx opt_f16c opt_sse opt_sse3 opt_sse4 : Opt

pub data Arch : Type 0 where
  aarch64 x86_64 other_arch : Arch

-- the target of the build, and the CPU that the code runs on
pub record Platform : Type 0 where
  pub arch : Arch
  pub is_little_endian : Bool
  pub opt : Opt → Bool
  pub has : Feature → Bool

-- VecSimMetric
pub data Metric : Type 0 where
  cosine ip l2 : Metric

-- the types that `GetDistFunc` is specialized for
pub data DataType : Type 0 where
  bfloat16 float16 float32 float64 int8 uint8 sq8 sq8_fp32 : DataType

-- the file of src/VecSim/spaces/functions that a kernel is chosen in
pub data Tier : Type 0 where
  naive big_endian : Tier
  in_sve2 in_sve in_neon in_neon_hp in_neon_dotprod in_neon_bf16 in_sve_bf16 : Tier
  in_avx512f in_avx512bw_vbmi2 in_avx512f_bw_vl_vnni in_avx512fp16_vl in_avx512bf16_vl : Tier
  in_avx2 in_avx2_fma in_avx in_f16c in_sse in_sse3 in_sse4 : Tier

-- The function returned, and `*alignment` after the call. A null `alignment` is a dummy's address.
pub record Choice : Type 0 where
  pub metric : Metric
  pub data_type : DataType
  pub tier : Tier
  pub alignment : ℕ

-- `sizeof`
abbrev pub size_of : DataType → ℕ
size_of bfloat16 = 2
size_of float16 = 2
size_of float32 = 4
size_of float64 = 8
size_of int8 = 1
size_of uint8 = 1
size_of sq8 = 1
size_of sq8_fp32 = 1

-- `if (dim % lanes == 0) *alignment = lanes * sizeof(T);`
abbrev pub align : DataType → ℕ → ℕ → ℕ → ℕ
align t lanes dim a = if dim % lanes == 0 then lanes * size_of t else a

abbrev pub choose : Metric → DataType → Tier → ℕ → Choice
choose m t tier a = record { metric = m; data_type = t; tier = tier; alignment = a }

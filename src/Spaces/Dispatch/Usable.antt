-- ===== src/Spaces/Dispatch/Usable.antt =====
-- Every choice that GetDistFunc makes can be used.
use vector_similarity.Base.{ℕ}
use vector_similarity.Spaces.{
  Platform, Metric, cosine, ip, l2, DataType, bfloat16, float16, float32, float64, int8, uint8, sq8,
  sq8_fp32,
}
use vector_similarity.Spaces.Usable.{IsUsable, VnniHasVl, HpHasFhm, SveBf16HasBoth}
use vector_similarity.Spaces.Usable.L2.{
  l2_bf16_get_dist_func-IsUsable, l2_fp16_get_dist_func-IsUsable, l2_fp32_get_dist_func-IsUsable,
  l2_fp64_get_dist_func-IsUsable, l2_int8_get_dist_func-IsUsable, l2_uint8_get_dist_func-IsUsable,
  l2_sq8_sq8_get_dist_func-IsUsable, l2_sq8_fp32_get_dist_func-IsUsable,
}
use vector_similarity.Spaces.Usable.Ip.{
  ip_bf16_get_dist_func-IsUsable, ip_fp16_get_dist_func-IsUsable, ip_fp32_get_dist_func-IsUsable,
  ip_fp64_get_dist_func-IsUsable, ip_int8_get_dist_func-IsUsable, ip_uint8_get_dist_func-IsUsable,
  ip_sq8_sq8_get_dist_func-IsUsable, ip_sq8_fp32_get_dist_func-IsUsable,
}
use vector_similarity.Spaces.Usable.Cosine.{
  cosine_int8_get_dist_func-IsUsable, cosine_uint8_get_dist_func-IsUsable,
  cosine_sq8_sq8_get_dist_func-IsUsable, cosine_sq8_fp32_get_dist_func-IsUsable,
}
use vector_similarity.Spaces.Dispatch.{get_dist_func}

-- the metric of the kernels: vectors of floating-point numbers are normalized for cosine
abbrev pub kernel_metric : DataType → Metric → Metric
kernel_metric bfloat16 cosine = ip
kernel_metric float16 cosine = ip
kernel_metric float32 cosine = ip
kernel_metric float64 cosine = ip
kernel_metric _ m = m

-- On a CPU whose AVX512_VNNI comes with AVX512VL, whose ASIMDHP comes with ASIMDFHM and whose SVEBF16
-- comes with SVE and BF16, GetDistFunc returns a kernel of the data type and
-- of the metric (the inner product for the cosine of floating-point vectors), which the build
-- includes, whose instruction sets by the flags of its file the CPU has, and whose chunk is no longer than the vector; the
-- alignment is left as it was, or divides the size of a vector.
pub get_dist_func-IsUsable :
    (t : DataType) (m : Metric) (p : Platform) (dim a : ℕ)
    → VnniHasVl p
    → HpHasFhm p
    → SveBf16HasBoth p
    → IsUsable (kernel_metric t m) t p dim a (get_dist_func t m p dim a)
unfolding get_dist_func
get_dist_func-IsUsable bfloat16 cosine p dim a h hp sb = ip_bf16_get_dist_func-IsUsable p dim a sb
get_dist_func-IsUsable bfloat16 ip p dim a h hp sb = ip_bf16_get_dist_func-IsUsable p dim a sb
get_dist_func-IsUsable bfloat16 l2 p dim a h hp sb = l2_bf16_get_dist_func-IsUsable p dim a sb
get_dist_func-IsUsable float16 cosine p dim a h hp sb = ip_fp16_get_dist_func-IsUsable p dim a hp
get_dist_func-IsUsable float16 ip p dim a h hp sb = ip_fp16_get_dist_func-IsUsable p dim a hp
get_dist_func-IsUsable float16 l2 p dim a h hp sb = l2_fp16_get_dist_func-IsUsable p dim a hp
get_dist_func-IsUsable float32 cosine p dim a h hp sb = ip_fp32_get_dist_func-IsUsable p dim a
get_dist_func-IsUsable float32 ip p dim a h hp sb = ip_fp32_get_dist_func-IsUsable p dim a
get_dist_func-IsUsable float32 l2 p dim a h hp sb = l2_fp32_get_dist_func-IsUsable p dim a
get_dist_func-IsUsable float64 cosine p dim a h hp sb = ip_fp64_get_dist_func-IsUsable p dim a
get_dist_func-IsUsable float64 ip p dim a h hp sb = ip_fp64_get_dist_func-IsUsable p dim a
get_dist_func-IsUsable float64 l2 p dim a h hp sb = l2_fp64_get_dist_func-IsUsable p dim a
get_dist_func-IsUsable int8 cosine p dim a h hp sb = cosine_int8_get_dist_func-IsUsable p dim a
get_dist_func-IsUsable int8 ip p dim a h hp sb = ip_int8_get_dist_func-IsUsable p dim a
get_dist_func-IsUsable int8 l2 p dim a h hp sb = l2_int8_get_dist_func-IsUsable p dim a
get_dist_func-IsUsable uint8 cosine p dim a h hp sb = cosine_uint8_get_dist_func-IsUsable p dim a
get_dist_func-IsUsable uint8 ip p dim a h hp sb = ip_uint8_get_dist_func-IsUsable p dim a
get_dist_func-IsUsable uint8 l2 p dim a h hp sb = l2_uint8_get_dist_func-IsUsable p dim a
get_dist_func-IsUsable sq8 cosine p dim a h hp sb = cosine_sq8_sq8_get_dist_func-IsUsable p dim a h
get_dist_func-IsUsable sq8 ip p dim a h hp sb = ip_sq8_sq8_get_dist_func-IsUsable p dim a h
get_dist_func-IsUsable sq8 l2 p dim a h hp sb = l2_sq8_sq8_get_dist_func-IsUsable p dim a h
get_dist_func-IsUsable sq8_fp32 cosine p dim a h hp sb =
    cosine_sq8_fp32_get_dist_func-IsUsable p dim a h
get_dist_func-IsUsable sq8_fp32 ip p dim a h hp sb = ip_sq8_fp32_get_dist_func-IsUsable p dim a h
get_dist_func-IsUsable sq8_fp32 l2 p dim a h hp sb = l2_sq8_fp32_get_dist_func-IsUsable p dim a h

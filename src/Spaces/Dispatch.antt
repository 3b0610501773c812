-- ===== src/Spaces/Dispatch.antt =====
-- src/VecSim/spaces/spaces.cpp: `GetDistFunc`, specialized for each data type. The exception at its
-- end is not reached, as the enumeration has no fourth metric.
pub mod Usable
mod Tests
use vector_similarity.Base.{ℕ}
use vector_similarity.Spaces.{
  Platform, Choice, Metric, cosine, ip, l2, DataType, bfloat16, float16, float32, float64, int8,
  uint8, sq8, sq8_fp32,
}
use vector_similarity.Spaces.L2.{
  l2_bf16_get_dist_func, l2_fp16_get_dist_func, l2_fp32_get_dist_func, l2_fp64_get_dist_func,
  l2_int8_get_dist_func, l2_uint8_get_dist_func, l2_sq8_sq8_get_dist_func,
  l2_sq8_fp32_get_dist_func,
}
use vector_similarity.Spaces.Ip.{
  ip_bf16_get_dist_func, ip_fp16_get_dist_func, ip_fp32_get_dist_func, ip_fp64_get_dist_func,
  ip_int8_get_dist_func, ip_uint8_get_dist_func, ip_sq8_sq8_get_dist_func,
  ip_sq8_fp32_get_dist_func,
}
use vector_similarity.Spaces.Cosine.{
  cosine_int8_get_dist_func, cosine_uint8_get_dist_func, cosine_sq8_sq8_get_dist_func,
  cosine_sq8_fp32_get_dist_func,
}

pub get_dist_func : DataType → Metric → Platform → ℕ → ℕ → Choice
get_dist_func bfloat16 cosine = ip_bf16_get_dist_func
get_dist_func bfloat16 ip = ip_bf16_get_dist_func
get_dist_func bfloat16 l2 = l2_bf16_get_dist_func
get_dist_func float16 cosine = ip_fp16_get_dist_func
get_dist_func float16 ip = ip_fp16_get_dist_func
get_dist_func float16 l2 = l2_fp16_get_dist_func
get_dist_func float32 cosine = ip_fp32_get_dist_func
get_dist_func float32 ip = ip_fp32_get_dist_func
get_dist_func float32 l2 = l2_fp32_get_dist_func
get_dist_func float64 cosine = ip_fp64_get_dist_func
get_dist_func float64 ip = ip_fp64_get_dist_func
get_dist_func float64 l2 = l2_fp64_get_dist_func
get_dist_func int8 cosine = cosine_int8_get_dist_func
get_dist_func int8 ip = ip_int8_get_dist_func
get_dist_func int8 l2 = l2_int8_get_dist_func
get_dist_func uint8 cosine = cosine_uint8_get_dist_func
get_dist_func uint8 ip = ip_uint8_get_dist_func
get_dist_func uint8 l2 = l2_uint8_get_dist_func
get_dist_func sq8 cosine = cosine_sq8_sq8_get_dist_func
get_dist_func sq8 ip = ip_sq8_sq8_get_dist_func
get_dist_func sq8 l2 = l2_sq8_sq8_get_dist_func
get_dist_func sq8_fp32 cosine = cosine_sq8_fp32_get_dist_func
get_dist_func sq8_fp32 ip = ip_sq8_fp32_get_dist_func
get_dist_func sq8_fp32 l2 = l2_sq8_fp32_get_dist_func

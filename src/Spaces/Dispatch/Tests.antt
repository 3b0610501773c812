-- ===== src/Spaces/Dispatch/Tests.antt =====
-- The choice on two CPUs.
use vector_similarity.Base.{Bool, true, false, ◌≡◌, refl}
use vector_similarity.Spaces.{
  Platform, Feature, Opt, x86_64, aarch64, asimdhp, l2, float16, in_neon_hp, avx, avx512vnni, ip,
  cosine, float32, sq8_fp32, in_avx, in_avx512f_bw_vl_vnni, avx512f, avx512bw, choose,
}
use vector_similarity.Spaces.L2.{l2_fp16_get_dist_func}
use vector_similarity.Spaces.Ip.{ip_fp32_get_dist_func, ip_sq8_fp32_get_dist_func}
use vector_similarity.Spaces.Usable.{IsUsable}
use vector_similarity.Spaces.Dispatch.{get_dist_func}
use vector_similarity.Spaces.Dispatch.Usable.{get_dist_func-IsUsable}

abbrev only_avx : Feature → Bool
only_avx avx = true
only_avx _ = false

abbrev no_vl : Feature → Bool
no_vl avx512f = true
no_vl avx512bw = true
no_vl avx512vnni = true
no_vl _ = false

abbrev every : Opt → Bool
every o = true

abbrev older : Platform
older = record { arch = x86_64; is_little_endian = true; opt = every; has = only_avx }

abbrev odd : Platform
odd = record { arch = x86_64; is_little_endian = true; opt = every; has = no_vl }

abbrev only_hp : Feature → Bool
only_hp asimdhp = true
only_hp _ = false

abbrev no_fhm : Platform
no_fhm = record { arch = aarch64; is_little_endian = true; opt = every; has = only_hp }

avx_for_24 : get_dist_func float32 cosine older 24 0 ≡ choose ip float32 in_avx 32
unfolding get_dist_func ip_fp32_get_dist_func
avx_for_24 = refl

-- AVX512VL is not asked for
vl_not_asked : get_dist_func sq8_fp32 ip odd 16 0 ≡ choose ip sq8_fp32 in_avx512f_bw_vl_vnni 0
unfolding get_dist_func ip_sq8_fp32_get_dist_func
vl_not_asked = refl

-- nor is ASIMDFHM, which the file of the half-precision kernels is compiled for
fhm_not_asked : get_dist_func float16 l2 no_fhm 16 0 ≡ choose l2 float16 in_neon_hp 0
unfolding get_dist_func l2_fp16_get_dist_func
fhm_not_asked = refl

get_dist_func-IsUsable_example :
    IsUsable ip float32 older 24 0 (get_dist_func float32 cosine older 24 0)
get_dist_func-IsUsable_example =
    get_dist_func-IsUsable float32 cosine older 24 0 (λ h. h) (λ h. h) (λ h. (h, h))

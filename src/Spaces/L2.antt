-- ===== src/Spaces/L2.antt =====
-- src/VecSim/spaces/L2_space.cpp, the choice of the kernel of the squared Euclidean distance
use vector_similarity.Base.{ℕ, not, ◌&&◌, ltb, leb, if◌then◌else◌}
use vector_similarity.Spaces.{
  Platform, Choice, choose, align, aarch64, x86_64, other_arch, l2, float32, float64, bfloat16,
  float16, int8, uint8, sq8, sq8_fp32, naive, big_endian, in_sve2, in_sve, in_neon, in_neon_hp,
  in_neon_dotprod, in_neon_bf16, in_sve_bf16, in_avx512f, in_avx512bw_vbmi2, in_avx512f_bw_vl_vnni,
  in_avx512fp16_vl, in_avx2, in_avx2_fma, in_avx, in_f16c, in_sse, in_sse3, in_sse4,
}
use vector_similarity.Spaces

unfoldable pub l2_sq8_fp32_get_dist_func : Platform → ℕ → ℕ → Choice
l2_sq8_fp32_get_dist_func p dim a =
    let chosen = choose l2 sq8_fp32 in
    elim p.arch [
      | aarch64 ↦
          if p.opt Spaces.opt_sve2 && p.has Spaces.sve2
          then chosen in_sve2 a
          else if p.opt Spaces.opt_sve && p.has Spaces.sve
          then chosen in_sve a
          else if p.opt Spaces.opt_neon && p.has Spaces.asimd
          then chosen in_neon a
          else chosen naive a
      | x86_64 ↦
          if ltb dim 16
          then chosen naive a
          else if p.opt Spaces.opt_avx512_f_bw_vl_vnni
              && p.has Spaces.avx512f
              && p.has Spaces.avx512bw
              && p.has Spaces.avx512vnni
          then chosen in_avx512f_bw_vl_vnni a
          else if p.opt Spaces.opt_avx2_fma && p.has Spaces.avx2 && p.has Spaces.fma3
          then chosen in_avx2_fma a
          else if p.opt Spaces.opt_avx2 && p.has Spaces.avx2
          then chosen in_avx2 a
          else if p.opt Spaces.opt_sse4 && p.has Spaces.sse4_1
          then chosen in_sse4 a
          else chosen naive a
      | other_arch ↦ chosen naive a
    ]

unfoldable pub l2_fp32_get_dist_func : Platform → ℕ → ℕ → Choice
l2_fp32_get_dist_func p dim a =
    let chosen = choose l2 float32 in
    elim p.arch [
      | aarch64 ↦
          if p.opt Spaces.opt_sve2 && p.has Spaces.sve2
          then chosen in_sve2 a
          else if p.opt Spaces.opt_sve && p.has Spaces.sve
          then chosen in_sve a
          else if p.opt Spaces.opt_neon && p.has Spaces.asimd
          then chosen in_neon a
          else chosen naive a
      | x86_64 ↦
          if ltb dim 16
          then chosen naive a
          else if p.opt Spaces.opt_avx512f && p.has Spaces.avx512f
          then chosen in_avx512f (align float32 16 dim a)
          else if p.opt Spaces.opt_avx && p.has Spaces.avx
          then chosen in_avx (align float32 8 dim a)
          else if p.opt Spaces.opt_sse && p.has Spaces.sse
          then chosen in_sse (align float32 4 dim a)
          else chosen naive a
      | other_arch ↦ chosen naive a
    ]

unfoldable pub l2_fp64_get_dist_func : Platform → ℕ → ℕ → Choice
l2_fp64_get_dist_func p dim a =
    let chosen = choose l2 float64 in
    elim p.arch [
      | aarch64 ↦
          if p.opt Spaces.opt_sve2 && p.has Spaces.sve2
          then chosen in_sve2 a
          else if p.opt Spaces.opt_sve && p.has Spaces.sve
          then chosen in_sve a
          else if p.opt Spaces.opt_neon && p.has Spaces.asimd
          then chosen in_neon a
          else chosen naive a
      | x86_64 ↦
          if ltb dim 8
          then chosen naive a
          else if p.opt Spaces.opt_avx512f && p.has Spaces.avx512f
          then chosen in_avx512f (align float64 8 dim a)
          else if p.opt Spaces.opt_avx && p.has Spaces.avx
          then chosen in_avx (align float64 4 dim a)
          else if p.opt Spaces.opt_sse && p.has Spaces.sse
          then chosen in_sse (align float64 2 dim a)
          else chosen naive a
      | other_arch ↦ chosen naive a
    ]

unfoldable pub l2_bf16_get_dist_func : Platform → ℕ → ℕ → Choice
l2_bf16_get_dist_func p dim a =
    let chosen = choose l2 bfloat16 in
    if not p.is_little_endian then chosen big_endian a else elim p.arch [
      | aarch64 ↦
          if p.opt Spaces.opt_sve_bf16 && p.has Spaces.svebf16
          then chosen in_sve_bf16 a
          else if p.opt Spaces.opt_neon_bf16 && p.has Spaces.bf16 && leb 8 dim
          then chosen in_neon_bf16 a
          else chosen naive a
      | x86_64 ↦
          if ltb dim 32
          then chosen naive a
          else if p.opt Spaces.opt_avx512_bw_vbmi2
              && p.has Spaces.avx512bw
              && p.has Spaces.avx512vbmi2
          then chosen in_avx512bw_vbmi2 (align bfloat16 32 dim a)
          else if p.opt Spaces.opt_avx2 && p.has Spaces.avx2
          then chosen in_avx2 (align bfloat16 16 dim a)
          else if p.opt Spaces.opt_sse3 && p.has Spaces.sse3
          then chosen in_sse3 (align bfloat16 8 dim a)
          else chosen naive a
      | other_arch ↦ chosen naive a
    ]

unfoldable pub l2_fp16_get_dist_func : Platform → ℕ → ℕ → Choice
l2_fp16_get_dist_func p dim a =
    let chosen = choose l2 float16 in
    elim p.arch [
      | aarch64 ↦
          if p.opt Spaces.opt_sve2 && p.has Spaces.sve2
          then chosen in_sve2 a
          else if p.opt Spaces.opt_sve && p.has Spaces.sve
          then chosen in_sve a
          else if p.opt Spaces.opt_neon_hp && p.has Spaces.asimdhp && leb 8 dim
          then chosen in_neon_hp a
          else chosen naive a
      | x86_64 ↦
          if ltb dim 32
          then chosen naive a
          else if p.opt Spaces.opt_avx512_fp16_vl
              && p.has Spaces.avx512_fp16
              && p.has Spaces.avx512vl
          then chosen in_avx512fp16_vl (align float16 32 dim a)
          else if p.opt Spaces.opt_avx512f && p.has Spaces.avx512f
          then chosen in_avx512f (align float16 32 dim a)
          else if p.opt Spaces.opt_f16c
              && p.has Spaces.f16c
              && p.has Spaces.fma3
              && p.has Spaces.avx
          then chosen in_f16c (align float16 16 dim a)
          else chosen naive a
      | other_arch ↦ chosen naive a
    ]

unfoldable pub l2_int8_get_dist_func : Platform → ℕ → ℕ → Choice
l2_int8_get_dist_func p dim a =
    let chosen = choose l2 int8 in
    elim p.arch [
      | aarch64 ↦
          if p.opt Spaces.opt_sve2 && p.has Spaces.sve2
          then chosen in_sve2 a
          else if p.opt Spaces.opt_sve && p.has Spaces.sve
          then chosen in_sve a
          else if p.opt Spaces.opt_neon_dotprod && p.has Spaces.asimddp && leb 16 dim
          then chosen in_neon_dotprod a
          else if p.opt Spaces.opt_neon && p.has Spaces.asimd && leb 16 dim
          then chosen in_neon a
          else chosen naive a
      | x86_64 ↦
          if ltb dim 32
          then chosen naive a
          else if p.opt Spaces.opt_avx512_f_bw_vl_vnni
              && p.has Spaces.avx512f
              && p.has Spaces.avx512bw
              && p.has Spaces.avx512vl
              && p.has Spaces.avx512vnni
          then chosen in_avx512f_bw_vl_vnni (align int8 32 dim a)
          else chosen naive a
      | other_arch ↦ chosen naive a
    ]

unfoldable pub l2_uint8_get_dist_func : Platform → ℕ → ℕ → Choice
l2_uint8_get_dist_func p dim a =
    let chosen = choose l2 uint8 in
    elim p.arch [
      | aarch64 ↦
          if p.opt Spaces.opt_sve2 && p.has Spaces.sve2
          then chosen in_sve2 a
          else if p.opt Spaces.opt_sve && p.has Spaces.sve
          then chosen in_sve a
          else if p.opt Spaces.opt_neon_dotprod && p.has Spaces.asimddp && leb 16 dim
          then chosen in_neon_dotprod a
          else if p.opt Spaces.opt_neon && p.has Spaces.asimd && leb 16 dim
          then chosen in_neon a
          else chosen naive a
      | x86_64 ↦
          if ltb dim 32
          then chosen naive a
          else if p.opt Spaces.opt_avx512_f_bw_vl_vnni
              && p.has Spaces.avx512f
              && p.has Spaces.avx512bw
              && p.has Spaces.avx512vl
              && p.has Spaces.avx512vnni
          then chosen in_avx512f_bw_vl_vnni (align int8 32 dim a)
          else chosen naive a
      | other_arch ↦ chosen naive a
    ]

unfoldable pub l2_sq8_sq8_get_dist_func : Platform → ℕ → ℕ → Choice
l2_sq8_sq8_get_dist_func p dim a =
    let chosen = choose l2 sq8 in
    elim p.arch [
      | aarch64 ↦
          if p.opt Spaces.opt_sve2 && p.has Spaces.sve2
          then chosen in_sve2 a
          else if p.opt Spaces.opt_sve && p.has Spaces.sve
          then chosen in_sve a
          else if p.opt Spaces.opt_neon_dotprod && leb 16 dim && p.has Spaces.asimddp
          then chosen in_neon_dotprod a
          else if p.opt Spaces.opt_neon && leb 16 dim && p.has Spaces.asimd
          then chosen in_neon a
          else chosen naive a
      | x86_64 ↦
          if p.opt Spaces.opt_avx512_f_bw_vl_vnni
            && leb 64 dim
            && p.has Spaces.avx512f
            && p.has Spaces.avx512bw
            && p.has Spaces.avx512vnni
          then chosen in_avx512f_bw_vl_vnni a
          else chosen naive a
      | other_arch ↦ chosen naive a
    ]

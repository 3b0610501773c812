-- ===== src/Spaces/Cosine.antt =====
-- src/VecSim/spaces/IP_space.cpp, the choice of the kernel of the cosine distance
use vector_similarity.Base.{ℕ, ◌&&◌, ltb, leb, if◌then◌else◌}
use vector_similarity.Spaces.{
  Platform, Choice, choose, aarch64, x86_64, other_arch, cosine, int8, uint8, sq8, sq8_fp32, naive,
  in_sve2, in_sve, in_neon, in_neon_dotprod, in_avx512f_bw_vl_vnni, in_avx2, in_avx2_fma, in_sse4,
}
use vector_similarity.Spaces

unfoldable pub cosine_sq8_fp32_get_dist_func : Platform → ℕ → ℕ → Choice
cosine_sq8_fp32_get_dist_func p dim a =
    let chosen = choose cosine sq8_fp32 in
    elim p.arch [
      | aarch64 ↦
          if p.opt Spaces.opt_sve2 && p.has Spaces.sve2
          then chosen in_sve2 a
          else if p.opt Spaces.opt_sve && p.has Spaces.sve
          then chosen in_sve a
          else if p.opt Spaces.opt_neon && p.has Spaces.asimd
          then chosen in_neon a
          else chosen naive a
      | x86_64 ↦
          if ltb dim 16
          then chosen naive a
          else if p.opt Spaces.opt_avx512_f_bw_vl_vnni
              && p.has Spaces.avx512f
              && p.has Spaces.avx512bw
              && p.has Spaces.avx512vnni
          then chosen in_avx512f_bw_vl_vnni a
          else if p.opt Spaces.opt_avx2_fma && p.has Spaces.avx2 && p.has Spaces.fma3
          then chosen in_avx2_fma a
          else if p.opt Spaces.opt_avx2 && p.has Spaces.avx2
          then chosen in_avx2 a
          else if p.opt Spaces.opt_sse4 && p.has Spaces.sse4_1
          then chosen in_sse4 a
          else chosen naive a
      | other_arch ↦ chosen naive a
    ]

unfoldable pub cosine_sq8_sq8_get_dist_func : Platform → ℕ → ℕ → Choice
cosine_sq8_sq8_get_dist_func p dim a =
    let chosen = choose cosine sq8 in
    elim p.arch [
      | aarch64 ↦
          if p.opt Spaces.opt_sve2 && p.has Spaces.sve2
          then chosen in_sve2 a
          else if p.opt Spaces.opt_sve && p.has Spaces.sve
          then chosen in_sve a
          else if p.opt Spaces.opt_neon_dotprod && p.has Spaces.asimddp && leb 16 dim
          then chosen in_neon_dotprod a
          else if p.opt Spaces.opt_neon && p.has Spaces.asimd && leb 16 dim
          then chosen in_neon a
          else chosen naive a
      | x86_64 ↦
          if p.opt Spaces.opt_avx512_f_bw_vl_vnni
            && leb 64 dim
            && p.has Spaces.avx512f
            && p.has Spaces.avx512bw
            && p.has Spaces.avx512vnni
          then chosen in_avx512f_bw_vl_vnni a
          else chosen naive a
      | other_arch ↦ chosen naive a
    ]

unfoldable pub cosine_int8_get_dist_func : Platform → ℕ → ℕ → Choice
cosine_int8_get_dist_func p dim a =
    let chosen = choose cosine int8 in
    elim p.arch [
      | aarch64 ↦
          if p.opt Spaces.opt_sve2 && p.has Spaces.sve2
          then chosen in_sve2 a
          else if p.opt Spaces.opt_sve && p.has Spaces.sve
          then chosen in_sve a
          else if p.opt Spaces.opt_neon_dotprod && p.has Spaces.asimddp && leb 16 dim
          then chosen in_neon_dotprod a
          else if p.opt Spaces.opt_neon && p.has Spaces.asimd && leb 16 dim
          then chosen in_neon a
          else chosen naive a
      | x86_64 ↦
          if ltb dim 32
          then chosen naive a
          else if p.opt Spaces.opt_avx512_f_bw_vl_vnni
              && p.has Spaces.avx512f
              && p.has Spaces.avx512bw
              && p.has Spaces.avx512vl
              && p.has Spaces.avx512vnni
          then chosen in_avx512f_bw_vl_vnni a
          else chosen naive a
      | other_arch ↦ chosen naive a
    ]

unfoldable pub cosine_uint8_get_dist_func : Platform → ℕ → ℕ → Choice
cosine_uint8_get_dist_func p dim a =
    let chosen = choose cosine uint8 in
    elim p.arch [
      | aarch64 ↦
          if p.opt Spaces.opt_sve2 && p.has Spaces.sve2
          then chosen in_sve2 a
          else if p.opt Spaces.opt_sve && p.has Spaces.sve
          then chosen in_sve a
          else if p.opt Spaces.opt_neon_dotprod && p.has Spaces.asimddp && leb 16 dim
          then chosen in_neon_dotprod a
          else if p.opt Spaces.opt_neon && p.has Spaces.asimd && leb 16 dim
          then chosen in_neon a
          else chosen naive a
      | x86_64 ↦
          if ltb dim 32
          then chosen naive a
          else if p.opt Spaces.opt_avx512_f_bw_vl_vnni
              && p.has Spaces.avx512f
              && p.has Spaces.avx512bw
              && p.has Spaces.avx512vl
              && p.has Spaces.avx512vnni
          then chosen in_avx512f_bw_vl_vnni a
          else chosen naive a
      | other_arch ↦ chosen naive a
    ]

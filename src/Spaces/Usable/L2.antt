-- ===== src/Spaces/Usable/L2.antt =====
-- Each choice of src/VecSim/spaces/L2_space.cpp for the l2 metric is usable.
use vector_similarity.Base.{ℕ, arith, ◌&&◌, not, ltb, leb}
use vector_similarity.Spaces
use vector_similarity.Spaces.{
  Platform, l2, bfloat16, float16, float32, float64, int8, sq8, sq8_fp32, uint8,
}
use vector_similarity.Spaces.Usable.{
  IsUsable, VnniHasVl, HpHasFhm, SveBf16HasBoth, align-divides, naive-IsUsable, return_if, by_arch,
}
use vector_similarity.Spaces.L2.{
  l2_sq8_fp32_get_dist_func, l2_fp32_get_dist_func, l2_fp64_get_dist_func, l2_bf16_get_dist_func,
  l2_fp16_get_dist_func, l2_int8_get_dist_func, l2_uint8_get_dist_func, l2_sq8_sq8_get_dist_func,
}

pub l2_sq8_fp32_get_dist_func-IsUsable :
    (p : Platform) (dim a : ℕ)
    → VnniHasVl p
    → IsUsable l2 sq8_fp32 p dim a (l2_sq8_fp32_get_dist_func p dim a)
unfolding l2_sq8_fp32_get_dist_func
l2_sq8_fp32_get_dist_func-IsUsable p dim a h =
    by_arch
      (λ r.
        return_if (p.opt Spaces.opt_sve2 && p.has Spaces.sve2) (λ e. ground arith)
          (λ _.
            return_if (p.opt Spaces.opt_sve && p.has Spaces.sve) (λ e. ground arith)
              (λ _.
                return_if (p.opt Spaces.opt_neon && p.has Spaces.asimd) (λ e. ground arith)
                  (λ _. naive-IsUsable))))
      (λ r.
        return_if (ltb dim 16) (λ e. naive-IsUsable)
          (λ long.
            return_if
              (p.opt Spaces.opt_avx512_f_bw_vl_vnni
                && p.has Spaces.avx512f
                && p.has Spaces.avx512bw
                && p.has Spaces.avx512vnni)
              (λ e. ground arith)
              (λ _.
                return_if (p.opt Spaces.opt_avx2_fma && p.has Spaces.avx2 && p.has Spaces.fma3)
                  (λ e. ground arith)
                  (λ _.
                    return_if (p.opt Spaces.opt_avx2 && p.has Spaces.avx2) (λ e. ground arith)
                      (λ _.
                        return_if (p.opt Spaces.opt_sse4 && p.has Spaces.sse4_1) (λ e. ground arith)
                          (λ _. naive-IsUsable))))))
      naive-IsUsable

pub l2_fp32_get_dist_func-IsUsable :
    (p : Platform) (dim a : ℕ) → IsUsable l2 float32 p dim a (l2_fp32_get_dist_func p dim a)
unfolding l2_fp32_get_dist_func
l2_fp32_get_dist_func-IsUsable p dim a =
    by_arch
      (λ r.
        return_if (p.opt Spaces.opt_sve2 && p.has Spaces.sve2) (λ e. ground arith)
          (λ _.
            return_if (p.opt Spaces.opt_sve && p.has Spaces.sve) (λ e. ground arith)
              (λ _.
                return_if (p.opt Spaces.opt_neon && p.has Spaces.asimd) (λ e. ground arith)
                  (λ _. naive-IsUsable))))
      (λ r.
        return_if (ltb dim 16) (λ e. naive-IsUsable)
          (λ long.
            return_if (p.opt Spaces.opt_avx512f && p.has Spaces.avx512f)
              (λ e. ground (arith, align-divides float32 16 dim a))
              (λ _.
                return_if (p.opt Spaces.opt_avx && p.has Spaces.avx)
                  (λ e. ground (arith, align-divides float32 8 dim a))
                  (λ _.
                    return_if (p.opt Spaces.opt_sse && p.has Spaces.sse)
                      (λ e. ground (arith, align-divides float32 4 dim a)) (λ _. naive-IsUsable)))))
      naive-IsUsable

pub l2_fp64_get_dist_func-IsUsable :
    (p : Platform) (dim a : ℕ) → IsUsable l2 float64 p dim a (l2_fp64_get_dist_func p dim a)
unfolding l2_fp64_get_dist_func
l2_fp64_get_dist_func-IsUsable p dim a =
    by_arch
      (λ r.
        return_if (p.opt Spaces.opt_sve2 && p.has Spaces.sve2) (λ e. ground arith)
          (λ _.
            return_if (p.opt Spaces.opt_sve && p.has Spaces.sve) (λ e. ground arith)
              (λ _.
                return_if (p.opt Spaces.opt_neon && p.has Spaces.asimd) (λ e. ground arith)
                  (λ _. naive-IsUsable))))
      (λ r.
        return_if (ltb dim 8) (λ e. naive-IsUsable)
          (λ long.
            return_if (p.opt Spaces.opt_avx512f && p.has Spaces.avx512f)
              (λ e. ground (arith, align-divides float64 8 dim a))
              (λ _.
                return_if (p.opt Spaces.opt_avx && p.has Spaces.avx)
                  (λ e. ground (arith, align-divides float64 4 dim a))
                  (λ _.
                    return_if (p.opt Spaces.opt_sse && p.has Spaces.sse)
                      (λ e. ground (arith, align-divides float64 2 dim a)) (λ _. naive-IsUsable)))))
      naive-IsUsable

pub l2_bf16_get_dist_func-IsUsable :
    (p : Platform) (dim a : ℕ)
    → SveBf16HasBoth p
    → IsUsable l2 bfloat16 p dim a (l2_bf16_get_dist_func p dim a)
unfolding l2_bf16_get_dist_func
l2_bf16_get_dist_func-IsUsable p dim a h =
    return_if (not p.is_little_endian) (λ e. ground arith)
      (λ _.
        by_arch
          (λ r.
            return_if (p.opt Spaces.opt_sve_bf16 && p.has Spaces.svebf16) (λ e. ground (arith, h))
              (λ _.
                return_if (p.opt Spaces.opt_neon_bf16 && p.has Spaces.bf16 && leb 8 dim)
                  (λ e. ground arith) (λ _. naive-IsUsable)))
          (λ r.
            return_if (ltb dim 32) (λ e. naive-IsUsable)
              (λ long.
                return_if
                  (p.opt Spaces.opt_avx512_bw_vbmi2
                    && p.has Spaces.avx512bw
                    && p.has Spaces.avx512vbmi2)
                  (λ e. ground (arith, align-divides bfloat16 32 dim a))
                  (λ _.
                    return_if (p.opt Spaces.opt_avx2 && p.has Spaces.avx2)
                      (λ e. ground (arith, align-divides bfloat16 16 dim a))
                      (λ _.
                        return_if (p.opt Spaces.opt_sse3 && p.has Spaces.sse3)
                          (λ e. ground (arith, align-divides bfloat16 8 dim a))
                          (λ _. naive-IsUsable)))))
          naive-IsUsable)

pub l2_fp16_get_dist_func-IsUsable :
    (p : Platform) (dim a : ℕ)
    → HpHasFhm p
    → IsUsable l2 float16 p dim a (l2_fp16_get_dist_func p dim a)
unfolding l2_fp16_get_dist_func
l2_fp16_get_dist_func-IsUsable p dim a h =
    by_arch
      (λ r.
        return_if (p.opt Spaces.opt_sve2 && p.has Spaces.sve2) (λ e. ground arith)
          (λ _.
            return_if (p.opt Spaces.opt_sve && p.has Spaces.sve) (λ e. ground arith)
              (λ _.
                return_if (p.opt Spaces.opt_neon_hp && p.has Spaces.asimdhp && leb 8 dim)
                  (λ e. ground (arith, h)) (λ _. naive-IsUsable))))
      (λ r.
        return_if (ltb dim 32) (λ e. naive-IsUsable)
          (λ long.
            return_if
              (p.opt Spaces.opt_avx512_fp16_vl && p.has Spaces.avx512_fp16 && p.has Spaces.avx512vl)
              (λ e. ground (arith, align-divides float16 32 dim a))
              (λ _.
                return_if (p.opt Spaces.opt_avx512f && p.has Spaces.avx512f)
                  (λ e. ground (arith, align-divides float16 32 dim a))
                  (λ _.
                    return_if
                      (p.opt Spaces.opt_f16c
                        && p.has Spaces.f16c
                        && p.has Spaces.fma3
                        && p.has Spaces.avx)
                      (λ e. ground (arith, align-divides float16 16 dim a))
                      (λ _. naive-IsUsable)))))
      naive-IsUsable

pub l2_int8_get_dist_func-IsUsable :
    (p : Platform) (dim a : ℕ) → IsUsable l2 int8 p dim a (l2_int8_get_dist_func p dim a)
unfolding l2_int8_get_dist_func
l2_int8_get_dist_func-IsUsable p dim a =
    by_arch
      (λ r.
        return_if (p.opt Spaces.opt_sve2 && p.has Spaces.sve2) (λ e. ground arith)
          (λ _.
            return_if (p.opt Spaces.opt_sve && p.has Spaces.sve) (λ e. ground arith)
              (λ _.
                return_if (p.opt Spaces.opt_neon_dotprod && p.has Spaces.asimddp && leb 16 dim)
                  (λ e. ground arith)
                  (λ _.
                    return_if (p.opt Spaces.opt_neon && p.has Spaces.asimd && leb 16 dim)
                      (λ e. ground arith) (λ _. naive-IsUsable)))))
      (λ r.
        return_if (ltb dim 32) (λ e. naive-IsUsable)
          (λ long.
            return_if
              (p.opt Spaces.opt_avx512_f_bw_vl_vnni
                && p.has Spaces.avx512f
                && p.has Spaces.avx512bw
                && p.has Spaces.avx512vl
                && p.has Spaces.avx512vnni)
              (λ e. ground (arith, align-divides int8 32 dim a)) (λ _. naive-IsUsable)))
      naive-IsUsable

pub l2_uint8_get_dist_func-IsUsable :
    (p : Platform) (dim a : ℕ) → IsUsable l2 uint8 p dim a (l2_uint8_get_dist_func p dim a)
unfolding l2_uint8_get_dist_func
l2_uint8_get_dist_func-IsUsable p dim a =
    by_arch
      (λ r.
        return_if (p.opt Spaces.opt_sve2 && p.has Spaces.sve2) (λ e. ground arith)
          (λ _.
            return_if (p.opt Spaces.opt_sve && p.has Spaces.sve) (λ e. ground arith)
              (λ _.
                return_if (p.opt Spaces.opt_neon_dotprod && p.has Spaces.asimddp && leb 16 dim)
                  (λ e. ground arith)
                  (λ _.
                    return_if (p.opt Spaces.opt_neon && p.has Spaces.asimd && leb 16 dim)
                      (λ e. ground arith) (λ _. naive-IsUsable)))))
      (λ r.
        return_if (ltb dim 32) (λ e. naive-IsUsable)
          (λ long.
            return_if
              (p.opt Spaces.opt_avx512_f_bw_vl_vnni
                && p.has Spaces.avx512f
                && p.has Spaces.avx512bw
                && p.has Spaces.avx512vl
                && p.has Spaces.avx512vnni)
              (λ e. ground (arith, align-divides int8 32 dim a)) (λ _. naive-IsUsable)))
      naive-IsUsable

pub l2_sq8_sq8_get_dist_func-IsUsable :
    (p : Platform) (dim a : ℕ)
    → VnniHasVl p
    → IsUsable l2 sq8 p dim a (l2_sq8_sq8_get_dist_func p dim a)
unfolding l2_sq8_sq8_get_dist_func
l2_sq8_sq8_get_dist_func-IsUsable p dim a h =
    by_arch
      (λ r.
        return_if (p.opt Spaces.opt_sve2 && p.has Spaces.sve2) (λ e. ground arith)
          (λ _.
            return_if (p.opt Spaces.opt_sve && p.has Spaces.sve) (λ e. ground arith)
              (λ _.
                return_if (p.opt Spaces.opt_neon_dotprod && leb 16 dim && p.has Spaces.asimddp)
                  (λ e. ground arith)
                  (λ _.
                    return_if (p.opt Spaces.opt_neon && leb 16 dim && p.has Spaces.asimd)
                      (λ e. ground arith) (λ _. naive-IsUsable)))))
      (λ r.
        return_if
          (p.opt Spaces.opt_avx512_f_bw_vl_vnni
            && leb 64 dim
            && p.has Spaces.avx512f
            && p.has Spaces.avx512bw
            && p.has Spaces.avx512vnni)
          (λ e. ground arith) (λ _. naive-IsUsable))
      naive-IsUsable

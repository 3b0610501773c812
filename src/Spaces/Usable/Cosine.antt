-- ===== src/Spaces/Usable/Cosine.antt =====
-- Each choice of src/VecSim/spaces/IP_space.cpp for the cosine metric is usable.
use vector_similarity.Base.{ℕ, arith, ◌&&◌, ltb, leb}
use vector_similarity.Spaces
use vector_similarity.Spaces.{Platform, cosine, int8, sq8, sq8_fp32, uint8}
use vector_similarity.Spaces.Usable.{IsUsable, VnniHasVl, naive-IsUsable, return_if, by_arch}
use vector_similarity.Spaces.Cosine.{
  cosine_sq8_fp32_get_dist_func, cosine_sq8_sq8_get_dist_func, cosine_int8_get_dist_func,
  cosine_uint8_get_dist_func,
}

pub cosine_sq8_fp32_get_dist_func-IsUsable :
    (p : Platform) (dim a : ℕ)
    → VnniHasVl p
    → IsUsable cosine sq8_fp32 p dim a (cosine_sq8_fp32_get_dist_func p dim a)
unfolding cosine_sq8_fp32_get_dist_func
cosine_sq8_fp32_get_dist_func-IsUsable p dim a h =
    by_arch
      (λ r.
        return_if (p.opt Spaces.opt_sve2 && p.has Spaces.sve2) (λ e. ground arith)
          (λ _.
            return_if (p.opt Spaces.opt_sve && p.has Spaces.sve) (λ e. ground arith)
              (λ _.
                return_if (p.opt Spaces.opt_neon && p.has Spaces.asimd) (λ e. ground arith)
                  (λ _. naive-IsUsable))))
      (λ r.
        return_if (ltb dim 16) (λ e. naive-IsUsable)
          (λ long.
            return_if
              (p.opt Spaces.opt_avx512_f_bw_vl_vnni
                && p.has Spaces.avx512f
                && p.has Spaces.avx512bw
                && p.has Spaces.avx512vnni)
              (λ e. ground arith)
              (λ _.
                return_if (p.opt Spaces.opt_avx2_fma && p.has Spaces.avx2 && p.has Spaces.fma3)
                  (λ e. ground arith)
                  (λ _.
                    return_if (p.opt Spaces.opt_avx2 && p.has Spaces.avx2) (λ e. ground arith)
                      (λ _.
                        return_if (p.opt Spaces.opt_sse4 && p.has Spaces.sse4_1) (λ e. ground arith)
                          (λ _. naive-IsUsable))))))
      naive-IsUsable

pub cosine_sq8_sq8_get_dist_func-IsUsable :
    (p : Platform) (dim a : ℕ)
    → VnniHasVl p
    → IsUsable cosine sq8 p dim a (cosine_sq8_sq8_get_dist_func p dim a)
unfolding cosine_sq8_sq8_get_dist_func
cosine_sq8_sq8_get_dist_func-IsUsable p dim a h =
    by_arch
      (λ r.
        return_if (p.opt Spaces.opt_sve2 && p.has Spaces.sve2) (λ e. ground arith)
          (λ _.
            return_if (p.opt Spaces.opt_sve && p.has Spaces.sve) (λ e. ground arith)
              (λ _.
                return_if (p.opt Spaces.opt_neon_dotprod && p.has Spaces.asimddp && leb 16 dim)
                  (λ e. ground arith)
                  (λ _.
                    return_if (p.opt Spaces.opt_neon && p.has Spaces.asimd && leb 16 dim)
                      (λ e. ground arith) (λ _. naive-IsUsable)))))
      (λ r.
        return_if
          (p.opt Spaces.opt_avx512_f_bw_vl_vnni
            && leb 64 dim
            && p.has Spaces.avx512f
            && p.has Spaces.avx512bw
            && p.has Spaces.avx512vnni)
          (λ e. ground arith) (λ _. naive-IsUsable))
      naive-IsUsable

pub cosine_int8_get_dist_func-IsUsable :
    (p : Platform) (dim a : ℕ) → IsUsable cosine int8 p dim a (cosine_int8_get_dist_func p dim a)
unfolding cosine_int8_get_dist_func
cosine_int8_get_dist_func-IsUsable p dim a =
    by_arch
      (λ r.
        return_if (p.opt Spaces.opt_sve2 && p.has Spaces.sve2) (λ e. ground arith)
          (λ _.
            return_if (p.opt Spaces.opt_sve && p.has Spaces.sve) (λ e. ground arith)
              (λ _.
                return_if (p.opt Spaces.opt_neon_dotprod && p.has Spaces.asimddp && leb 16 dim)
                  (λ e. ground arith)
                  (λ _.
                    return_if (p.opt Spaces.opt_neon && p.has Spaces.asimd && leb 16 dim)
                      (λ e. ground arith) (λ _. naive-IsUsable)))))
      (λ r.
        return_if (ltb dim 32) (λ e. naive-IsUsable)
          (λ long.
            return_if
              (p.opt Spaces.opt_avx512_f_bw_vl_vnni
                && p.has Spaces.avx512f
                && p.has Spaces.avx512bw
                && p.has Spaces.avx512vl
                && p.has Spaces.avx512vnni)
              (λ e. ground arith) (λ _. naive-IsUsable)))
      naive-IsUsable

pub cosine_uint8_get_dist_func-IsUsable :
    (p : Platform) (dim a : ℕ) → IsUsable cosine uint8 p dim a (cosine_uint8_get_dist_func p dim a)
unfolding cosine_uint8_get_dist_func
cosine_uint8_get_dist_func-IsUsable p dim a =
    by_arch
      (λ r.
        return_if (p.opt Spaces.opt_sve2 && p.has Spaces.sve2) (λ e. ground arith)
          (λ _.
            return_if (p.opt Spaces.opt_sve && p.has Spaces.sve) (λ e. ground arith)
              (λ _.
                return_if (p.opt Spaces.opt_neon_dotprod && p.has Spaces.asimddp && leb 16 dim)
                  (λ e. ground arith)
                  (λ _.
                    return_if (p.opt Spaces.opt_neon && p.has Spaces.asimd && leb 16 dim)
                      (λ e. ground arith) (λ _. naive-IsUsable)))))
      (λ r.
        return_if (ltb dim 32) (λ e. naive-IsUsable)
          (λ long.
            return_if
              (p.opt Spaces.opt_avx512_f_bw_vl_vnni
                && p.has Spaces.avx512f
                && p.has Spaces.avx512bw
                && p.has Spaces.avx512vl
                && p.has Spaces.avx512vnni)
              (λ e. ground arith) (λ _. naive-IsUsable)))
      naive-IsUsable

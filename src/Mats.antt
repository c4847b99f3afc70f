-- ===== src/Mats.antt =====
-- `cv::Mat`, which OpenCV defines: what the cache and the arena use of it. A Mat is told apart by
-- its shape, its type and its pixels alone.
use vision_pipe.Base.{ℕ, Bool, true, false, ◌++◌, ◌≡◌, Bytes}

-- `no_mat` is `cv::Mat()`, `byte_size` is `total() * elemSize()`, `pixels` lists the rows one after
-- the other, `wrap rows cols type data` is the constructor over foreign data, which reads as many
-- bytes of it as the shape needs.
pub record Mats (M : Type 0) : Type 0 where
  pub no_mat : M
  pub is_empty : M → Bool
  pub rows : M → ℕ
  pub cols : M → ℕ
  pub mat_type : M → ℕ
  pub byte_size : M → ℕ
  pub pixels : M → Bytes
  pub wrap : ℕ → ℕ → ℕ → Bytes → M
  pub clone : M → M

-- What OpenCV documents: wrapping the pixels of a Mat under its shape gives the Mat, whatever
-- stands behind them, a clone has the contents of the Mat, and `cv::Mat()` is empty.
pub record IsLawful {M : Type 0} (o : Mats M) : Type 0 where
  pub wraps :
      (m : M) (rest : Bytes)
      → o.is_empty m ≡ false
      → o.wrap (o.rows m) (o.cols m) (o.mat_type m) (o.pixels m ++ rest) ≡ m
  pub clones : (m : M) → o.clone m ≡ m
  pub empties : o.is_empty o.no_mat ≡ true

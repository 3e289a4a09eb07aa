-- ===== src/Epoch/Examples.antt =====
-- The theorems on the status word at a word with epoch 3 and two active threads, and one with none.
use yaay_rs.Base.{◌≡◌, refl, none}
use yaay_rs.Epoch.Defs.{new, active_count_mask}

mask_value : active_count_mask ≡ 511
mask_value = refl

new_limit : new 512 ≡ none
unfolding new
new_limit = refl

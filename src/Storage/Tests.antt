-- ===== src/Storage/Tests.antt =====
-- The claim of an image of 10 GiB.
use kubevirt_webgui.Base.{◌+◌, ◌%◌, ◌≤◌, ◌<◌, ◌≡◌, ◌⊎◌, refl, arith}
use kubevirt_webgui.Storage.{gib, claim_size, claim_size_lem}

eleven : claim_size 10737418240 ≡ 11811160064
unfolding claim_size
eleven = refl

claim_size_lem_example :
    (11811160064 ≤ claim_size 10737418240)
    × (claim_size 10737418240 % gib ≡ 0)
    × (gib ≤ claim_size 10737418240)
    × ((claim_size 10737418240 ≡ gib) ⊎ (claim_size 10737418240 < 11811160064 + gib))
claim_size_lem_example = claim_size_lem 10737418240 (omega arith)

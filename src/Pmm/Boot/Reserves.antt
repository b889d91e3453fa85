-- ===== src/Pmm/Boot/Reserves.antt =====
-- The reservations of pmm_init.
use nexus_os.Base.{
  ℕ, ◌≤◌, ◌≡◌, refl, Bool, true, false, not, ◌&&◌, ◌||◌, arith, ltb, ◌==◌, if◌then◌else◌,
}
use nexus_os.Pmm.{Pmm, uint64_max, reserve_range}
use nexus_os.Pmm.Bitmap.{AreBytes}
use nexus_os.Pmm.Alloc.{is_used}
use nexus_os.Pmm.Ranges.{
  Keeps, Keeps-refl, Keeps-trans, overlaps, IsBelow, reserve_range-Keeps, reserve_range-marks,
}
use nexus_os.Pmm.Boot.{
  BootInfo, boot_info_size, add64, reserve_kernel, reserve_framebuffer, reserve_all,
}
use nexus_os.Pmm.Boot.Passes.{is_reserved, Keeps-IsBelow}

-- The pages that pass the test become used; the others stay.
pub record Reserves (m m' : Pmm) (f : ℕ → Bool) : Type 0 where
  pub keeps : Keeps m m'
  pub marks : (q : ℕ) → IsBelow m q → is_used m' q ≡ (if f q then true else is_used m q)

Reserves-then :
    (m m1 m2 : Pmm) (f g : ℕ → Bool)
    → Reserves m m1 f
    → Reserves m1 m2 g
    → Reserves m m2 (λ q. f q || g q)
Reserves-then m m1 m2 f g r s = record {
  keeps = Keeps-trans r.keeps s.keeps;
  marks =
      λ q below. ground (arith, r.marks q below, s.marks q (Keeps-IsBelow m m1 q r.keeps below));
}

reserve_range-Reserves :
    (start end : ℕ) (m : Pmm)
    → AreBytes m.bitmap
    → end ≤ uint64_max
    → Reserves m (reserve_range start end m) (overlaps start end)
reserve_range-Reserves start end m b fits = record {
  keeps = reserve_range-Keeps start end m b;
  marks = λ q below. reserve_range-marks start end m q b below fits;
}

-- A reservation under a condition.
reserve_if :
    (test : Bool) (start end : ℕ) (m : Pmm)
    → AreBytes m.bitmap
    → end ≤ uint64_max
    → Reserves m (if test then reserve_range start end m else m) (λ q. test && overlaps start end q)
reserve_if true start end m b fits = reserve_range-Reserves start end m b fits
reserve_if false start end m b fits = record { keeps = Keeps-refl m b; marks = λ q below. refl }

-- The same reservations under an equal test.
Reserves-same :
    (m m' : Pmm) (f g : ℕ → Bool) → ((q : ℕ) → f q ≡ g q) → Reserves m m' f → Reserves m m' g
Reserves-same m m' f g same r = record {
  keeps = r.keeps;
  marks = λ q below. ground (arith, r.marks q below, same q);
}

add64-le : (a b : ℕ) → add64 a b ≤ uint64_max
add64-le a b = omega arith

reserve_kernel-Reserves :
    (bi : BootInfo) (m : Pmm)
    → bi.kernel_phys_end ≤ uint64_max
    → AreBytes m.bitmap
    → Reserves m (reserve_kernel bi m) (overlaps bi.kernel_phys_base bi.kernel_phys_end)
unfolding reserve_kernel
reserve_kernel-Reserves bi m fits b =
    Reserves-same m (reserve_kernel bi m) (λ q. ltb base end && overlaps base end q)
      (overlaps base end) (λ q. ground arith) (reserve_if (ltb base end) base end m b fits)
  where
    base : ℕ
    base = bi.kernel_phys_base

    end : ℕ
    end = bi.kernel_phys_end

-- The kernel image ends where a 64-bit number can say so.
module _ (bi : BootInfo) (kernel_fits : bi.kernel_phys_end ≤ uint64_max) where
  pub reserve_all-Reserves :
      (m : Pmm) → AreBytes m.bitmap → Reserves m (reserve_all bi m) (is_reserved bi)
  unfolding reserve_all reserve_framebuffer
  reserve_all-Reserves m b =
      let low = reserve_range-Reserves 0 0x200000 m b (omega arith) in
      let m1 = reserve_range 0 0x200000 m in
      let kernel = reserve_kernel-Reserves bi m1 kernel_fits low.keeps.bytes in
      let m2 = reserve_kernel bi m1 in
      let info_end = add64 bi.address boot_info_size in
      let info = reserve_range-Reserves bi.address info_end m2 kernel.keeps.bytes (omega arith) in
      let m3 = reserve_range bi.address info_end m2 in
      let map_end = add64 bi.map_base bi.map_size in
      let map = reserve_range-Reserves bi.map_base map_end m3 info.keeps.bytes (omega arith) in
      let m4 = reserve_range bi.map_base map_end m3 in
      let fb =
        reserve_if (not (bi.fb_base == 0) && not (bi.fb_size == 0)) bi.fb_base
          (add64 bi.fb_base bi.fb_size) m4 map.keeps.bytes (omega arith) in
      let two = Reserves-then m m1 m2 _ _ low kernel in
      let three = Reserves-then m m2 m3 _ _ two info in
      let four = Reserves-then m m3 m4 _ _ three map in
      Reserves-then m m4 (reserve_framebuffer bi m4) _ _ four fb

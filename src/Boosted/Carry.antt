-- ===== src/Boosted/Carry.antt =====
-- The relation that the work function of the boosted governor takes from one CPU to the next.
use android_device_motorola.Prelude.{◌<◌, ◌≡◌, ◌≢◌, sub32, sltb, arith, false}
use android_device_motorola.Cpufreq.{relation_l, relation_h}
use android_device_motorola.Boosted.State.{Tunables, BoostedInfo, ramp_up, ramp_down}
use android_device_motorola.Boosted.Work.{ramp_freq, chosen_freq, Reading, work_step}

-- Where a CPU ramps up by a step, the CPU that follows in the same run and ramps down by a step
-- takes the same frequency as it would alone, but rounds it down and not up.
pub work_step-carries :
    (t : Tunables) (r r' : Reading) (a b : BoostedInfo)
    → a.old_freq ≡ r.policy.cur
    → b.old_freq ≡ r'.policy.cur
    → a.ramp_dir ≡ ramp_up
    → b.ramp_dir ≡ ramp_down
    → 1 < r.nr_running
    → sltb a.old_freq a.ideal_speed ≡ false
    → sltb b.ideal_speed b.old_freq ≡ false
    → t.ramp_up_step ≢ 0
    → t.ramp_down_step ≢ 0
    → let (calls, info, relation) = work_step t r relation_l a in
      (chosen_freq t b r'.policy r'.nr_running relation
        ≡ (sub32 b.old_freq t.ramp_down_step, relation_h))
      × (chosen_freq t b r'.policy r'.nr_running relation_l
          ≡ (sub32 b.old_freq t.ramp_down_step, relation_l))
unfolding work_step chosen_freq ramp_freq
work_step-carries t r r' a b e f up down tasks above below us ds = ground arith

-- ===== src/Journal/Priorities.antt =====
-- The priorities of journald against the levels of slog.
use proxmox_eventbus.Prelude.{◌≤◌, ◌≡◌, true, arith, pos, negsuc}
use proxmox_eventbus.Journal.{Level, level_leb, sd_priority}

-- Of two levels the higher one is given a priority at least as urgent, which is a lower number, and
-- every priority is from 3 (error) to 7 (debug).
sd_priority_antitone :
    (a b : Level)
    → level_leb a b ≡ true
    → (sd_priority b ≤ sd_priority a) × (3 ≤ sd_priority b) × (sd_priority a ≤ 7)
unfolding sd_priority
sd_priority_antitone (pos a) (pos b) h = (ground arith, ground arith, ground arith)
sd_priority_antitone (pos a) (negsuc b) h = (ground arith, ground arith, ground arith)
sd_priority_antitone (negsuc a) (pos b) h = (ground arith, ground arith, ground arith)
sd_priority_antitone (negsuc a) (negsuc b) h = (ground arith, ground arith, ground arith)

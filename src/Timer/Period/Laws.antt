-- ===== src/Timer/Period/Laws.antt =====
-- The period follows the configuration, and what a period of 0 does.
use cacic_agente.Base.{
  ℕ, suc, ◌≡◌, ℤ, pos, true, false, String, arith, if◌then◌else◌, times, quotient, eq_int,
}
use cacic_agente.Json.{Object, str, value}
use cacic_agente.Machine.{Machine}
use cacic_agente.World.{World, ok, Ensures, Silent}
use cacic_agente.Cacic.{get_json_from_file}
use cacic_agente.Cacic.Laws.{get_json_of_disk}
use cacic_agente.World.Laws.{Ensures-mono}
use cacic_agente.Timer.{settings, is_usable, config_path}
use cacic_agente.Timer.Period.{Periods, update_period, default_minutes}

module _ (m : Machine) (folder : String) (parse : String → ℤ) (number : ℤ → String) where
  -- Where the configuration reads and gives a positive number of minutes, the period becomes that number of
  -- minutes; the timer is set anew if it was another number before, and not otherwise.
  update_period_follows :
      (w : World m) (p : Periods) (config : Object) (s : String) (n : ℕ)
      → get_json_from_file m (config_path m folder) w ≡ ok config w
      → is_usable config ≡ true
      → value "nu_intervalo_exec" (settings config) ≡ str s
      → parse s ≡ pos (suc n)
      → Ensures (update_period m folder parse number p w) (λ q v.
        Silent w v
        × (quotient q.current 60000 ≡ pos (suc n))
        × (q.interval ≡ (
            if eq_int (quotient p.current 60000) (pos (suc n))
            then p.interval
            else times (pos (suc n)) 60000)))
  unfolding update_period
  update_period_follows w p config s n reads usable found parsed = ground arith

  module _ (config : Object) (s : String) (usable : is_usable config ≡ true)
      (found : value "nu_intervalo_exec" (settings config) ≡ str s) (parsed : parse s ≡ pos 0) where
    zero_minutes :
        (w : World m) (p : Periods)
        → get_json_from_file m (config_path m folder) w ≡ ok config w
        → eq_int (quotient p.current 60000) (pos 0) ≡ false
        → Ensures
            (update_period m folder parse number p w)
            (λ q v. (q.current ≡ pos 0) × (q.interval ≡ pos 0) × Silent w v)
    unfolding update_period
    zero_minutes w p reads minutes = ground arith

    zero_again :
        (w : World m) (p : Periods)
        → get_json_from_file m (config_path m folder) w ≡ ok config w
        → p.current ≡ pos 0
        → p.interval ≡ pos 0
        → Ensures
            (update_period m folder parse number p w)
            (λ q v. (q.current ≡ times default_minutes 60000) × (q.interval ≡ pos 0))
    unfolding update_period
    zero_again w p reads c i = ground arith

  -- Where the configuration reads and gives a text that `toInt` takes for 0, and the period is a minute or
  -- more, the timer is set to an interval of 0 milliseconds. The next check puts the default into
  -- the period, and leaves the timer at 0.
  update_period_zero :
      (w : World m) (p : Periods) (config : Object) (s : String)
      → get_json_from_file m (config_path m folder) w ≡ ok config w
      → is_usable config ≡ true
      → value "nu_intervalo_exec" (settings config) ≡ str s
      → parse s ≡ pos 0
      → eq_int (quotient p.current 60000) (pos 0) ≡ false
      → Ensures (update_period m folder parse number p w) (λ q v.
        (q.current ≡ pos 0)
        × (q.interval ≡ pos 0)
        × Ensures
            (update_period m folder parse number q v)
            (λ r u. (r.current ≡ times default_minutes 60000) × (r.interval ≡ pos 0)))
  update_period_zero w p config s reads usable found parsed minutes =
      Ensures-mono (update_period m folder parse number p w) _ _
        (zero_minutes config s usable found parsed w p reads minutes)
        λ q v (c, i, (d, _, _)).
          let again = get_json_of_disk m (config_path m folder) w v config d reads in
          (c, i, zero_again config s usable found parsed v q again c i)

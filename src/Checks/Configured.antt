-- ===== src/Checks/Configured.antt =====
-- Settings and the fields of traffic rules on concrete values.
use arch_task_manager.Base.{
  ℕ, ◌<◌, ◌^◌, ◌%◌, ◌≡◌, refl, ap, false, Option, Text, some, none, codes, [], ◌∷◌, arith,
}
use arch_task_manager.Base.Int.{ℤ, pos}
use arch_task_manager.Base.Decimal.{to_string, stoi, stoi-to_string}
use arch_task_manager.Network.TrafficAlert.Validation.{has_bad_char, is_bad, is_alert}
use arch_task_manager.Network.TrafficAlert.{NetworkTrafficAlertRule}
use arch_task_manager.Network.TrafficAlert.Fields.{
  Numbers, confirmation_samples, strtol_strict, positive_of,
}
use arch_task_manager.Network.TrafficAlert.Accepted.{IsAccepted, apply_field-IsAccepted}
use arch_task_manager.Network.TrafficAlert.Applying.{apply_field, all_fields, with_value}
use arch_task_manager.Network.TrafficAlert.Restored.{
  IsPrintable, apply_written, apply_written-all_fields,
}
use arch_task_manager.Settings.{AppSettings, defaults}
use arch_task_manager.Settings.Checking.{validate_settings}
use arch_task_manager.Settings.Fixing.{clamp_and_fix}
use arch_task_manager.Settings.Fixed.{validate_settings-clamp_and_fix}
use arch_task_manager.Settings.Rules.{AreApart, clamp_and_fix-AreApart}
use arch_task_manager.Checks.Reading.{Reading, num, reading_double, reading_text}
use arch_task_manager.Checks.Repairs.{reading-IsExact}
use arch_task_manager.Checks.Traffic.{download}

-- Settings with an interval out of range and the same rule twice.
abbrev careless : AppSettings Reading
careless = record defaults {
  general = record {
    refresh_interval_ms = pos 5;
    default_page = codes "graph";
    autostart_enabled = false;
  };
  alerts = record defaults.alerts { network_rules = download ∷ download ∷ [] };
}

validate_settings-clamp_and_fix_example : validate_settings (clamp_and_fix careless).0 ≡ []
unfolding defaults has_bad_char is_bad
validate_settings-clamp_and_fix_example =
    validate_settings-clamp_and_fix reading-IsExact careless refl (refl, (refl, tt))

clamp_and_fix-AreApart_example : AreApart (clamp_and_fix careless).0.alerts.network_rules
clamp_and_fix-AreApart_example = clamp_and_fix-AreApart careless

abbrev whole : Option ℕ → Option ℤ
whole none = none
whole (some n) = some (pos n)

abbrev short_text : Reading → Text
short_text (num n) = to_string (n % 100)
short_text v = reading_text v

abbrev read_number : Option ℕ → Option Reading
read_number none = none
read_number (some n) = some (num n)

-- Numbers that are read digit by digit, and floating-point numbers of which only the last two
-- digits are printed.
abbrev digits : Numbers Reading
digits = record {
  strtol = λ s. whole (stoi s);
  strtod = λ s. read_number (stoi s);
  print = short_text;
}

strtol-to_string : (n : ℕ) → n < 2 ^ 63 → digits.strtol (to_string n) ≡ some (pos n)
strtol-to_string n h = ap whole (stoi-to_string n)

download-IsAccepted : IsAccepted download
unfolding has_bad_char is_bad is_alert
download-IsAccepted =
    (refl, refl, omega arith, refl, omega arith, refl, refl, refl, refl, omega arith)

-- The threshold of 100 is printed with too few digits.
download-IsPrintable : IsPrintable digits (num 0) (num 5) download
download-IsPrintable = record {
  samples_small = omega arith;
  cooldown_small = omega arith;
  threshold_read = ap read_number (stoi-to_string 0);
  threshold_finite = refl;
  duration_read = ap read_number (stoi-to_string 5);
  duration_finite = refl;
  duration_positive = refl;
}

apply_written-all_fields_example :
    apply_written digits download all_fields (some (record download { cooldown_seconds = 9 }))
    ≡ some (record download { threshold = num 0 })
apply_written-all_fields_example =
    apply_written-all_fields digits (num 0) (num 5) download
      (record download { cooldown_seconds = 9 }) strtol-to_string download-IsAccepted
      download-IsPrintable

abbrev wordy : NetworkTrafficAlertRule Reading
wordy = record download { confirmation_samples = 9 }

apply_field-IsAccepted_example : IsAccepted wordy
unfolding stoi strtol_strict positive_of with_value apply_field
apply_field-IsAccepted_example =
    apply_field-IsAccepted digits download wordy confirmation_samples (codes "9")
      download-IsAccepted refl

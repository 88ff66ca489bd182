-- ===== src/Logger/Callbacks.antt =====
-- What log does with and without a callback.
use dklibrary.Common.{
  ℕ, ◌≡◌, refl, List, [], ◌∷◌, ◌++◌, none, some, returns, throws, out_of_range, true,
}
use dklibrary.Utils.{is_separator, log_prefix, prefix_text}
use dklibrary.Utils.Names.{Plain, log_file_name_lem}
use dklibrary.Logger.{Logger, LogLevel, log}

prefix_lem :
    (thread line : ℕ) (func folder name : List ℕ) (c : ℕ)
    → is_separator c ≡ true
    → Plain name
    → (log_prefix thread func (folder ++ (c ∷ name)) line
        ≡ some (prefix_text thread func (c ∷ name) line))
      × (log_prefix thread func name line ≡ none)
unfolding log_prefix
prefix_lem thread line func folder name c sep plain =
    let (found, missing) = log_file_name_lem folder name c sep plain in
    (rw (log_prefix, found) refl, rw (log_prefix, missing) refl)

-- Without a callback nothing is logged and nothing fails. With one, a message from a source file
-- with a path makes one call, whose text is the prefix with the last separator and the part behind
-- it, a tab and the message; from a file without a separator the prefix throws, and nothing is called.
pub log_lem :
    (l : Logger) (callback thread line : ℕ) (level : LogLevel) (func folder name message : List ℕ)
    (c : ℕ)
    → is_separator c ≡ true
    → Plain name
    → (log thread level func name line message (record l { callback = none })
        ≡ returns tt (record l { callback = none }))
      × (log thread level func
            (folder ++ (c ∷ name))
            line
            message
            (record l { callback = some callback })
          ≡ returns tt (record {
            callback = some callback;
            calls =
                l.calls
                ++ (record {
                  callback = callback;
                  level = level;
                  text = prefix_text thread func (c ∷ name) line ++ (9 ∷ message);
                }
                    ∷ []);
          }))
      × (log thread level func name line message (record l { callback = some callback })
          ≡ throws out_of_range (record l { callback = some callback }))
unfolding log
log_lem l callback thread line level func folder name message c sep plain =
    let (found, missing) = prefix_lem thread line func folder name c sep plain in
    (refl, rw (log, found) refl, rw (log, missing) refl)

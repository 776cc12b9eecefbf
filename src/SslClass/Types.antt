-- ===== src/SslClass/Types.antt =====
-- The classes of ssl_class.rs.
use honeybeepf_llm.Prelude.{ℕ}

pub data SslClass : Type 0 where
  unknown send skip_request skip_connection h2 : SslClass

-- `class as u64`
abbrev pub code : SslClass → ℕ
code SslClass.unknown = 0
code SslClass.send = 1
code SslClass.skip_request = 2
code SslClass.skip_connection = 3
code SslClass.h2 = 4

-- ===== src/Recovery.antt =====
-- libs/eirvah-controls/src/eirvah_controls/recovery.py: the durable state at the borders between
-- producers and consumers. A method that writes runs in one transaction. Identities, topics, nodes and
-- the canonical texts of values are only compared, and are numbers.
pub mod Positions
pub mod Advance
pub mod Journal
pub mod Consumer

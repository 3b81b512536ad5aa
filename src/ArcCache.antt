-- ===== src/ArcCache.antt =====
-- The adaptive replacement cache: inc/common/cache/arc_node.h, arc_lru.h, arc_lfu.h, arc_cache.h.
pub mod Node
pub mod Lru
pub mod Lfu
pub mod Cache
pub mod Slices
pub mod Sharing
pub mod Routing
pub mod Sliced
pub mod Content
pub mod Recency
pub mod Resident
pub mod Buckets
pub mod Frequency
pub mod Rising
pub mod Evictions
pub mod Frequent
pub mod FrequentReads
pub mod Adapting
pub mod Writing
pub mod Reading
pub mod History
mod Tests

-- ===== src/Tests.antt =====
-- Each theorem at a concrete input.
mod Platform
mod Codec
mod Pods
mod Types
mod Storage
mod Operator
mod Kube
mod Plugins
mod Server
mod Hook
mod Agent
mod System
mod Collector
mod Deletions
mod Toolkit
mod Recorded
mod Forgotten
mod Collided
mod Life
mod Threads
mod Common
mod Registration
mod Hooked
